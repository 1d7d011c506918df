-- ===== src/Api.antt =====
-- executor/api: what a route answers, and the modules of its routes.
pub mod Tables
pub mod Submit
pub mod Progress
pub mod Views
pub mod Status
pub mod Telemetry
pub mod Jwt
pub mod Compare
pub mod RoleSwaps
pub mod Discover
pub mod Reports
pub mod Dashboard
pub mod Copilot
pub mod Assistant
pub mod Main
use integrated_work_tll.Prelude.{ℕ, String}

-- A value that FastAPI sends, or an `HTTPException`.
pub data Reply {ℓ} (A : Type ℓ) : Type ℓ where
  reply : A → Reply A
  http_error : (status_code : ℕ) → (detail : String) → Reply A
