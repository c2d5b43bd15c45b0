-- ===== src/Atmi.antt =====
-- What the program takes from Tuxedo, FML32 and the C library. None of that code is in the
-- repository, so its codes, texts and calls are parameters of the model.
pub mod Codes
pub mod Texts
pub mod Calls
pub mod Fml
