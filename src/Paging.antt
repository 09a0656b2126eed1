-- ===== src/Paging.antt =====
-- Pages of a table by a cursor: the select of one page, shared by the repositories that list
-- memberships, categories, settings and logs, and the pages that a client reads who follows the
-- cursors.
pub mod Window
mod Order
pub mod Following
pub mod Cursors
