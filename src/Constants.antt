-- ===== src/Constants.antt =====
-- disastrOS_constants.h.
pub mod Call
pub mod Error
