-- ===== src/Phones.antt =====
-- backend/app/phones/normalization.py and backend/app/outbound/phone.py: the normalizer of Argentine
-- numbers, and the guard before a dial. A string is the list of its code points.
pub mod Compact
pub mod Normalize
pub mod Guard
