-- ===== src/Go/Errors.antt =====
-- Go error values with their chain of wrapped errors, and `errors.Is` and `errors.As` on them.
use stdgo.Base.{ℕ, String, Bool, false, Option, none, some, ◌==◌, ◌≡◌, refl, ◌⊎◌, inl, inr}

-- The sentinel errors that the source compares by identity, and those of its libraries.
pub data Sentinel : Type 0 where
  tx_closed sql_tx_done already_in_scope missing_database_role unmanaged_transaction
        deadline_exceeded context_canceled eof :
      Sentinel

abbrev pub sentinel_index : Sentinel → ℕ
sentinel_index tx_closed = 0
sentinel_index sql_tx_done = 1
sentinel_index already_in_scope = 2
sentinel_index missing_database_role = 3
sentinel_index unmanaged_transaction = 4
sentinel_index deadline_exceeded = 5
sentinel_index context_canceled = 6
sentinel_index eof = 7

-- `wrap` is `fmt.Errorf` with one `%w`; `wrap_with` shows a second error by its text only;
-- `connect_error` is `connect.NewError` with the number of its code.
pub data GoError : Type 0 where
  sentinel : Sentinel → GoError
  pg_error : String → GoError
  message : String → GoError
  wrap : String → GoError → GoError
  wrap_with : GoError → String → GoError → GoError
  connect_error : ℕ → GoError → GoError

-- `errors.Is(err, target)` for a sentinel target.
unfoldable pub is : GoError → Sentinel → Bool
is (sentinel s) t = sentinel_index s == sentinel_index t
is (pg_error c) t = false
is (message m) t = false
is (wrap m e) t = is e t
is (wrap_with e m shown) t = is e t
is (connect_error code e) t = is e t

-- `errors.As(err, &pgErr)` for a `*pgconn.PgError`: the code of the first one on the chain.
unfoldable pub as_pg_error : GoError → Option String
as_pg_error (sentinel s) = none
as_pg_error (pg_error c) = some c
as_pg_error (message m) = none
as_pg_error (wrap m e) = as_pg_error e
as_pg_error (wrap_with e m shown) = as_pg_error e
as_pg_error (connect_error code e) = as_pg_error e

-- A call that yields a value or an error.
pub data Result {ℓ} (A : Type ℓ) : Type ℓ where
  ok : A → Result A
  err : GoError → Result A

pub Result-cases {ℓ} :
    {A : Type ℓ} (r : Result A) → ((e : GoError) × (r ≡ err e)) ⊎ ((a : A) × (r ≡ ok a))
Result-cases (ok a) = inr (a, refl)
Result-cases (err e) = inl (e, refl)
