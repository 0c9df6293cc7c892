-- ===== src/Api.antt =====
-- apps/tooling/api/errors.py and the rows that several services share. An id (UUID), a user and a time
-- are numbers: only their equality and order are used.
use pottracker.Prelude.{ℕ, String, Bool, Option}

-- The subclasses of `ApiError` with their status; `detail` is a value in place of its text. `unhandled` is
-- any other exception, which leaves the service and is answered with 500.
pub data ApiError (D : Type 0) : Type 0 where
  not_found conflict unprocessable unauthorized forbidden unhandled : D → ApiError D

abbrev pub status : {D : Type 0} → ApiError D → ℕ
status (not_found d) = 404
status (conflict d) = 409
status (unprocessable d) = 422
status (unauthorized d) = 401
status (forbidden d) = 403
status (unhandled d) = 500

pub data Result (D A : Type 0) : Type 0 where
  ok : A → Result D A
  err : ApiError D → Result D A

-- A row of shared.machine, with the columns that the services read.
pub record Machine : Type 0 where
  pub id : ℕ
  pub name : String
  pub machine_class : String
  pub enabled : Bool
  pub has_tsc : Bool
  pub probe_t_number : Option ℕ
  pub probe_h_register : Option ℕ
  pub offset_register_count : ℕ
