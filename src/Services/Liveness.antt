-- ===== src/Services/Liveness.antt =====
-- The server answers every request with a tag that it knows.
use cosemlib.Base.{
  ℕ, ◌≤◌, ◌≡◌, refl, Bool, true, false, [], ◌∷◌, some, arith, Exec, ret, fault, bind_exec, M, pure,
  if◌then◌else◌, ◌>>=◌, Returns, Returns-bind, Returns-map, ◌⊎◌, inl, inr,
}
use cosemlib.Array.{Array}
use cosemlib.Array.Consume.{Ahead, skip, read_u8-Reads}
use cosemlib.Services.{
  Service, svc_set, svc_action, is_ok, Request, Exchange, DbCode, err_bad_encoding, on_array,
}
use cosemlib.Services.Coding.{set_db, decode_request}
use cosemlib.Services.Server.{
  App, Database, answer_get, answer_set_or_action, or_exception, get_request_decoder,
  set_or_action_decoder, set_request_decoder, action_request_decoder, set_service, services,
  services_init, run_service, server_services_execute,
}
use cosemlib.Services.Stable.{IsRoomy, Same, Same-refl, Same-trans, Stable, decode_request-Stable}
use cosemlib.Services.Answers.{
  Lawful, Answered, or_exception-Answered, answer_get-Finished, answer_set_or_action-Finished,
}

-- What both decoders do around the answer.
answered :
    (hal : M (Exchange Request) Bool) (answer : M (Exchange Request) DbCode)
    → Stable hal
    → ((s : Exchange Request)
        → IsRoomy s.array
        → Returns
            (answer s)
            (λ c t. Same s.array t.array × (is_ok c ≡ true → 3 ≤ t.array.wr_index)))
    → (s : Exchange Request) → IsRoomy s.array
    → Returns
        ((do
          decoded ← decode_request hal
          code ← if decoded then answer else pure err_bad_encoding
          or_exception code)
          s)
        (Answered s.array)
answered hal answer selects h s roomy =
    Returns-bind (Answered s.array) (decode_request hal s) _
      ((decode_request-Stable selects).run s roomy)
      (λ decoded t same.
        Returns-bind (Answered s.array) ((if decoded then answer else pure err_bad_encoding) t)
          or_exception (finish decoded t same)
          (λ code u k.
            Returns-map (Answered s.array) (or_exception code u)
              (or_exception-Answered code u k.0.roomy k.1)
              (λ c v a. (Same-trans (Same-trans same k.0) a.0, a.1, a.2))))
  where
    finish :
        (decoded : Bool) (t : Exchange Request)
        → Same s.array t.array
        → Returns
            ((if decoded then answer else pure err_bad_encoding) t)
            (λ c u. Same t.array u.array × (is_ok c ≡ true → 3 ≤ u.array.wr_index))
    finish true t same = h t same.roomy
    finish false t same = (Same-refl same.roomy, λ e. cc)

abbrev Replied : Array → ℕ → Exchange Request → Type 0
Replied a n t = Same a t.array × (n ≡ t.array.wr_index) × (3 ≤ n)

-- The number of bytes is the write index after the decoder.
counted :
    (a : Array) (r : Exec (Exchange Request) DbCode)
    → Returns r (Answered a)
    → Returns
        (bind_exec r (λ code t. ret (if is_ok code then t.array.wr_index else 0) t))
        (Replied a)
counted a (ret code t) h = rw h.1 (h.0, refl, h.2)
counted a fault h = h

from_skip :
    (a : Array) (r : Exec (Exchange Request) ℕ)
    → IsRoomy (skip 1 a)
    → Returns r (Replied (skip 1 a))
    → Returns r (Replied a)
from_skip a r roomy h =
    let same : Same a (skip 1 a) = record {
      roomy = roomy;
      offset_eq = refl;
      size_eq = refl;
      length_eq = refl;
    } in
    Returns-map (Replied a) r h (λ n t k. (Same-trans same k.0, k.1, k.2))

module _ {app : App} {db : Database} (laws : Lawful app db) where
  get_request_decoder-Answered :
      (s : Exchange Request)
      → IsRoomy s.array
      → Returns (get_request_decoder (services_init (some db) app) s) (Answered s.array)
  unfolding get_request_decoder set_service services_init
  get_request_decoder-Answered s h =
      answered app.decode_selective_access (answer_get db) laws.selects (answer_get-Finished laws) _
        h

  set_or_action_decoder-Answered :
      (s : Exchange Request)
      → IsRoomy s.array
      → Returns (set_or_action_decoder (services_init (some db) app) s) (Answered s.array)
  unfolding set_or_action_decoder services_init
  set_or_action_decoder-Answered s h =
      answered app.decode_selective_access (answer_set_or_action db) laws.selects
        (answer_set_or_action-Finished laws) s h

  -- With a database installed, code of the application that keeps the arrays it is given, and a roomy array in
  -- which the tag of a GET, SET or ACTION request is ahead, the server does not fault and always
  -- returns a response, whatever follows the tag: at least three bytes, as many as the write index says,
  -- in an array that is still valid and over the same buffer, offset and size.
  pub server_services_execute-answers :
      (s : Exchange Request) (tag : ℕ)
      → IsRoomy s.array
      → Ahead (tag ∷ []) s.array
      → (tag ≡ 192) ⊎ ((tag ≡ 193) ⊎ (tag ≡ 195))
      → Returns
          (server_services_execute (services_init (some db) app) s)
          (λ n t. Same s.array t.array × (n ≡ t.array.wr_index) × (3 ≤ n))
  unfolding server_services_execute services_init services run_service set_request_decoder
      action_request_decoder set_service
  server_services_execute-answers s tag h ahead known =
      let first = (read_u8-Reads tag).run s.array h.valid ahead in
      let roomy : IsRoomy (skip 1 s.array) = ground (arith, h, ahead.inside) in
      let read : Exchange Request = record { message = s.message; array = skip 1 s.array } in
      let serves : Service → Exchange Request = λ service. record {
        message = set_db (λ d. record d { service = service }) s.message;
        array = skip 1 s.array;
      } in
      elim known [
        | inl e ↦
            rw (on_array, first, e)
              (from_skip s.array _ roomy (
                counted _ (get_request_decoder (services_init (some db) app) read)
                  (get_request_decoder-Answered read roomy)))
        | inr (inl e) ↦
            rw (on_array, first, e)
              (from_skip s.array _ roomy (
                counted _ (set_request_decoder (services_init (some db) app) read)
                  (set_or_action_decoder-Answered (serves svc_set) roomy)))
        | inr (inr e) ↦
            rw (on_array, first, e)
              (from_skip s.array _ roomy (
                counted _ (action_request_decoder (services_init (some db) app) read)
                  (set_or_action_decoder-Answered (serves svc_action) roomy)))
      ]
