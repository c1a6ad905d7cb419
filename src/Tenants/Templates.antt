-- ===== src/Tenants/Templates.antt =====
-- backend/app/analysis/profiles: the schema and the templates of an analysis profile.
use qora.Base.{none, List, [], ◌∷◌}
use qora.Tenants.Rows.{CatalogEntry, AnalysisProfile}

pub data Vertical : Type 0 where
  insurance generic : Vertical

unfoldable pub insurance_products : List CatalogEntry
insurance_products =
    record {
      id = "auto_todo_riesgo";
      label_es = "Auto todo riesgo";
      label_en = "Comprehensive auto";
      description = none;
    }
    ∷ record {
      id = "auto_terceros_completo";
      label_es = "Auto terceros completo";
      label_en = "Auto third-party complete";
      description = none;
    }
    ∷ record {
      id = "auto_terceros";
      label_es = "Auto terceros";
      label_en = "Auto third-party";
      description = none;
    }
    ∷ record { id = "moto"; label_es = "Moto"; label_en = "Motorcycle"; description = none }
    ∷ record { id = "hogar"; label_es = "Hogar"; label_en = "Home"; description = none }
    ∷ record { id = "vida"; label_es = "Vida"; label_en = "Life"; description = none }
    ∷ record { id = "comercio"; label_es = "Comercio"; label_en = "Commercial"; description = none }
    ∷ record {
      id = "art";
      label_es = "ART";
      label_en = "Personal accident (ART)";
      description = none;
    }
    ∷ record { id = "caucion"; label_es = "Caución"; label_en = "Surety bond"; description = none }
    ∷ []

unfoldable pub insurance_need_tags : List CatalogEntry
insurance_need_tags =
    record {
      id = "precio_competitivo";
      label_es = "Precio competitivo";
      label_en = "Competitive price";
      description = none;
    }
    ∷ record {
      id = "mayor_cobertura";
      label_es = "Mayor cobertura";
      label_en = "More coverage";
      description = none;
    }
    ∷ record {
      id = "menor_franquicia";
      label_es = "Menor franquicia";
      label_en = "Lower deductible";
      description = none;
    }
    ∷ record {
      id = "atencion_personalizada";
      label_es = "Atención personalizada";
      label_en = "Personalized service";
      description = none;
    }
    ∷ record { id = "rapidez"; label_es = "Rapidez"; label_en = "Speed"; description = none }
    ∷ record {
      id = "financiacion";
      label_es = "Financiación";
      label_en = "Financing";
      description = none;
    }
    ∷ record {
      id = "comparar_con_actual";
      label_es = "Comparar con actual";
      label_en = "Compare with current";
      description = none;
    }
    ∷ record {
      id = "renovacion_proxima";
      label_es = "Renovación próxima";
      label_en = "Upcoming renewal";
      description = none;
    }
    ∷ record {
      id = "COMPARANDO_OPCIONES";
      label_es = "Comparando opciones";
      label_en = "Comparing options";
      description = none;
    }
    ∷ record { id = "other"; label_es = "Otro"; label_en = "Other"; description = none }
    ∷ []

-- the config of `_ANALYSIS_PROFILE_TEMPLATES[vertical]`
unfoldable pub template : Vertical → AnalysisProfile
unfolding insurance_products insurance_need_tags
template insurance = record {
  vertical = "insurance";
  products = insurance_products;
  need_tags = insurance_need_tags;
}
template generic = record { vertical = "generic"; products = []; need_tags = [] }
