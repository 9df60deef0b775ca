-- ===== src/Dashboard.antt =====
-- dashboard/src: the user interface that reads the API: its state, what it asks the API for, and what
-- it does with the answers. A component's state changes by its handlers and by the answers that
-- arrive; what it draws is left out.
pub mod Filters
pub mod Table
pub mod DlqView
