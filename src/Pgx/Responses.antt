-- ===== src/Pgx/Responses.antt =====
-- fx/stdpgxtxfx/connect_tx.go and http_json_tx.go: handlers of remote procedures and of JSON requests
-- that run in a transaction. `fn` already has the context's logger.
use stdgo.Base.{
  ℕ, suc, String, Bool, true, false, Option, none, some, ◌≡◌, ◌↔◌, refl, if◌then◌else◌, str_eq, inl,
  inr, Bool-cases, ◌⊎◌,
}
use stdgo.Go.Context.{Context}
use stdgo.Go.Errors.{GoError, message, wrap, connect_error, eof, is, as_pg_error}
use stdgo.Go.Outcome.{Outcome, returned, panicked, exited, succeeded}
use stdgo.Failsafe.{Execute, IsExecutor}
use stdgo.Stdtx.Driver.{Driver, IsDriver, Status}
use stdgo.Stdtx.Transact.{transact1}
use stdgo.Stdtx.Transact.Attempt.{LeavesOpen}
use stdgo.Stdtx.Transact.Commits.{transact1-success, transact1-failure}

-- `connect.CodePermissionDenied`
abbrev pub code_permission_denied : ℕ
code_permission_denied = 7

-- The map `PgErrorsToConnectError`, at a code.
abbrev pub pg_error_to_connect_error : (code : String) → Option GoError
pg_error_to_connect_error code =
    if str_eq code "42501"
    then some (connect_error code_permission_denied (message "database permission denied"))
    else none

abbrev pub mapped : GoError → Option GoError → GoError
mapped e none = e
mapped e (some e') = e'

abbrev pub of_code : GoError → Option String → GoError
of_code e none = e
of_code e (some code) = mapped e (pg_error_to_connect_error code)

unfoldable pub tx_error : GoError → GoError
tx_error e = of_code e (as_pg_error e)

-- A nil response, or one with a message.
abbrev pub tx_response : {S O : Type 0} → S × Outcome O → S × Outcome (Option O)
tx_response (s, returned msg none) = (s, returned (some msg) none)
tx_response (s, returned msg (some e)) = (s, returned none (some (tx_error e)))
tx_response (s, panicked v) = (s, panicked v)
tx_response (s, exited) = (s, exited)

module _ {S Tx I O : Type 0} (drv : Driver S Tx) (execute : Execute O S) where
  -- `nil_output` is the zero value of the output.
  unfoldable pub ctx_tx :
      Context
      → I
      → (Context → Tx → I → S → S × Outcome O)
      → (nil_output : O) → S
      → S × Outcome (Option O)
  ctx_tx ctx msg fn nil_output s =
      tx_response (transact1 drv execute ctx (λ ctx tx. fn ctx tx msg) nil_output s)

abbrev pub encoded : {S W : Type 0} → S → W × Option GoError → (S × W) × Outcome (Unit {0})
encoded s (w, none) = ((s, w), returned tt none)
encoded s (w, some e) = ((s, w), returned tt (some (wrap "encode response" e)))

-- What follows the transaction.
abbrev pub respond :
    {S O W : Type 0}
    → (O → W → W × Option GoError)
    → W
    → S × Outcome O
    → (S × W) × Outcome (Unit {0})
respond encode w (s, returned out none) = encoded s (encode out w)
respond encode w (s, returned out (some e)) = ((s, w), returned tt (some (tx_error e)))
respond encode w (s, panicked v) = ((s, w), panicked v)
respond encode w (s, exited) = ((s, w), exited)

-- An error of the decoder other than the end of an empty body.
abbrev pub undecodable : Option GoError → Option GoError
undecodable none = none
undecodable (some e) = if is e eof then none else some e

module _ {S Tx I O W : Type 0} (drv : Driver S Tx) (execute : Execute O S) where
  abbrev pub serve_decoded :
      Option GoError
      → Context
      → I
      → (Context → Tx → I → S → S × Outcome O)
      → (nil_output : O) → (O → W → W × Option GoError)
      → S
      → W
      → (S × W) × Outcome (Unit {0})
  serve_decoded (some e) ctx inp fn nil_output encode s w =
      ((s, w), returned tt (some (wrap "decode request" e)))
  serve_decoded none ctx inp fn nil_output encode s w =
      respond encode w (transact1 drv execute ctx (λ ctx tx. fn ctx tx inp) nil_output s)

  -- `decoded` is the input that the decoder leaves, with its error.
  unfoldable pub hj_tx :
      Context
      → (decoded : I × Option GoError) → (Context → Tx → I → S → S × Outcome O)
      → (nil_output : O) → (encode : O → W → W × Option GoError) → S
      → W
      → (S × W) × Outcome (Unit {0})
  unfolding tx_error is
  hj_tx ctx decoded fn nil_output encode s w =
      serve_decoded (undecodable decoded.1) ctx decoded.0 fn nil_output encode s w

-- The body decodes when the decoder has no error, or only the end of an empty body.
abbrev pub IsDecoded : Option GoError → Type 0
IsDecoded none = Unit
IsDecoded (some e) = is e eof ≡ true

-- How a JSON request is handled, with the decoder's error, what its transaction comes to, and the
-- number of commits before and after: no transaction for a body that does not decode, nothing written
-- where the transaction fails, and else one commit with its output written behind it.
pub data Handled {S W O : Type 0} (commits : S → ℕ) (encode : O → W → W × Option GoError)
    (failed : Option GoError) (ran : S × Outcome O) (s : S) (w : W)
    : S → W → Outcome (Unit {0}) → Type 0 where
  undecoded :
      (e : GoError)
      → failed ≡ some e
      → is e eof ≡ false
      → Handled commits encode failed ran s w s w (returned tt (some (wrap "decode request" e)))
  unanswered :
      (s' : S) (o : Outcome (Unit {0}))
      → IsDecoded failed
      → ran.0 ≡ s'
      → succeeded ran.1 ≡ false
      → commits s' ≡ commits s
      → succeeded o ≡ false
      → Handled commits encode failed ran s w s' w o
  answered :
      (s' : S) (w' : W) (out : O) (failure : Option GoError) (o : Outcome (Unit {0}))
      → IsDecoded failed
      → ran ≡ (s', returned out none)
      → commits s' ≡ suc (commits s)
      → encode out w ≡ (w', failure)
      → (succeeded o ≡ true) ↔ (failure ≡ none)
      → Handled commits encode failed ran s w s' w' o

module _ {S W O : Type 0} (commits : S → ℕ) (encode : O → W → W × Option GoError)
    (failed : Option GoError) (decodes : IsDecoded failed) (s : S) (w : W) where
  encoded-Handled :
      (s' : S) (out : O) (r : W × Option GoError)
      → encode out w ≡ r
      → commits s' ≡ suc (commits s)
      → let a = encoded s' r in
        Handled commits encode failed (s', returned out none) s w a.0.0 a.0.1 a.1
  encoded-Handled s' out (w', none) h once =
      answered s' w' out none (returned tt none) decodes refl once h ((λ _. refl), (λ _. refl))
  encoded-Handled s' out (w', some e) h once =
      answered s' w' out (some e) (returned tt (some (wrap "encode response" e))) decodes refl once
        h ((λ h. cc), (λ h. cc))

  respond-Handled :
      (r : S × Outcome O)
      → (succeeded r.1 ≡ true → commits r.0 ≡ suc (commits s))
      → (succeeded r.1 ≡ false → commits r.0 ≡ commits s)
      → let a = respond encode w r in Handled commits encode failed r s w a.0.0 a.0.1 a.1
  respond-Handled (s', returned out none) won lost =
      encoded-Handled s' out (encode out w) refl (won refl)
  respond-Handled (s', returned out (some e)) won lost =
      unanswered s' (returned tt (some (tx_error e))) decodes refl refl (lost refl) refl
  respond-Handled (s', panicked v) won lost =
      unanswered s' (panicked v) decodes refl refl (lost refl) refl
  respond-Handled (s', exited) won lost = unanswered s' exited decodes refl refl (lost refl) refl

undecodable-cases :
    (failed : Option GoError)
    → ((undecodable failed ≡ none) × IsDecoded failed)
      ⊎ ((e : GoError) × (failed ≡ some e) × (is e eof ≡ false) × (undecodable failed ≡ some e))
undecodable-cases none = inl (refl, tt)
undecodable-cases (some e) = elim (Bool-cases (is e eof)) [
  | inl empty ↦ inl (rw empty refl, empty)
  | inr other ↦ inr (e, refl, other, rw other refl)
]

module _ {S Tx I O W : Type 0} (drv : Driver S Tx) (execute : Execute O S)
    (status : S → Tx → Status) (commits : S → ℕ) (cancelled : Context → S → Bool) where
  -- A JSON request whose body the decoder rejects, with an error other than the end of an empty
  -- body, starts no transaction and writes no response; for any other, the transaction of the
  -- function on the decoded input runs: when it fails, nothing is committed and no response is
  -- written; when it succeeds, one commit was made before its output was encoded, and the call
  -- succeeds exactly when the encoding does. This holds for a context that is never cancelled, a
  -- driver and an executor that keep their laws and a function that leaves its transaction open.
  pub hj_tx-Handled :
      (ctx : Context) (decoded : I × Option GoError) (fn : Context → Tx → I → S → S × Outcome O)
      (nil_output : O) (encode : O → W → W × Option GoError) (s : S) (w : W)
      → IsDriver drv status commits
      → IsExecutor cancelled execute
      → LeavesOpen status commits (λ ctx tx. fn ctx tx decoded.0)
      → ((t : S) → cancelled ctx t ≡ false)
      → let ran = transact1 drv execute ctx (λ ctx tx. fn ctx tx decoded.0) nil_output s in
        let a = hj_tx drv execute ctx decoded fn nil_output encode s w in
        Handled commits encode decoded.1 ran s w a.0.0 a.0.1 a.1
  unfolding hj_tx
  hj_tx-Handled ctx decoded fn nil_output encode s w laws runs plain alive =
      elim (undecodable-cases decoded.1) [
        | inr (e, failed, other, bad) ↦ rw bad (undecoded e failed other)
        | inl (fine, decodes) ↦ rw fine (
            respond-Handled commits encode decoded.1 decodes s w
              (transact1 drv execute ctx (λ ctx tx. fn ctx tx decoded.0) nil_output s)
              (transact1-success drv status commits execute cancelled ctx
                (λ ctx tx. fn ctx tx decoded.0) nil_output s laws runs plain)
              (transact1-failure drv status commits execute cancelled ctx
                (λ ctx tx. fn ctx tx decoded.0) nil_output s laws runs plain alive))
      ]
