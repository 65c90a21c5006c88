-- ===== src/Html.antt =====
-- internal/mailhtml: the body of a message as it is shown.
pub mod Find
