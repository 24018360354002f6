-- ===== src/App.antt =====
-- src/app.ts: the routes that do more than give a page. A handler is a function of the request and of
-- the state that it reaches, and gives a reply and the state after it. A part of the application
-- that is not configured is an argument that is `none`.
pub mod Reply
pub mod Accounts
pub mod Orders
pub mod Wholesale
mod Examples
