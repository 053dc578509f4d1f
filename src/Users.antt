-- ===== src/Users.antt =====
-- apps/user/src/modules/users/users.service.ts, one child for each group of methods. A method takes
-- the database as it is, and returns its result with the database as it leaves it.

pub mod Common
pub mod Controller
pub mod Autoreg
pub mod Login
pub mod Email
pub mod Upgrade
pub mod OAuth
pub mod Password
pub mod Profile
