-- ===== src/Services/Serving.antt =====
-- What the server answers: the request that arrives, or the one before it.
use cosemlib.Base.{
  ℕ, ◌+◌, ◌≡◌, refl, ap, ◌∙◌, true, ◌∷◌, some, length, M, pure, get, ret, if◌then◌else◌, ◌>>=◌,
}
use cosemlib.Array.{Array, read_u8}
use cosemlib.Array.Bounds.{IsValid}
use cosemlib.Array.Consume.{skip, skip-skip, Ahead, read_u8_next}
use cosemlib.Services.{
  Service, svc_unkown, svc_get, svc_set, svc_action, svc_exception, Request, Exchange, DbCode,
  is_ok, on_array,
}
use cosemlib.Services.Coding.{set_db, decode_request, request_tag}
use cosemlib.Services.Server.{
  App, Database, answer_get, answer_set_or_action, or_exception, get_request_decoder,
  set_or_action_decoder, set_request_decoder, action_request_decoder, set_service, services,
  services_init, run_service, server_services_execute,
}
use cosemlib.Services.Wire.{Wire, IsServed, IsWire, wire_bytes, heard, decode_request-Takes}

-- The number of bytes of the response that ends with `answer`.
abbrev counted : M (Exchange Request) DbCode → M (Exchange Request) ℕ
counted answer = do
  code ← (do given ← answer; or_exception given)
  s ← get
  pure (if is_ok code then s.array.wr_index else 0)

-- The response to the request in the message: what the database gives, or an exception response.
abbrev pub respond : Service → Database → M (Exchange Request) ℕ
respond svc_get db = counted (answer_get db)
respond _ db = counted (answer_set_or_action db)

abbrev serving : Service → Request → Request
serving service = set_db (λ d. record d { service = service })

module _ (app : App) (db : Database) where
  -- The tag, and what stands behind it.
  arrives :
      (s : Service) (invoke : ℕ) (w : Wire) (q : Request) {a : Array}
      → IsServed s
      → IsWire s w
      → IsValid a
      → Ahead (request_tag s ∷ wire_bytes s invoke w) a
      → (read_u8 a ≡ ret (some (request_tag s)) (skip 1 a))
        × (decode_request app.decode_selective_access
              (record { message = serving s q; array = skip 1 a })
            ≡ ret true (record {
              message = heard s invoke w (serving s q);
              array = skip (1 + length (wire_bytes s invoke w)) a;
            }))
  arrives s invoke w q {a} k ok v ahead =
      let xs = wire_bytes s invoke w in
      let (first, valid, rest) = read_u8_next (request_tag s) xs v ahead in
      let takes =
        decode_request-Takes app.decode_selective_access s invoke w (serving s q) k refl ok in
      (
        first,
        takes.run (skip 1 a) valid rest
            ∙ ap (λ b. ret true (record { message = heard s invoke w (serving s q); array = b }))
                (skip-skip 1 (length xs) (1 + length xs) a refl),
      )

  -- The server with a database answers a GET, SET or ACTION request, ahead in a valid array behind its tag,
  -- with the response of the database: for a normal request without selective access, to the object (a
  -- class of 16 bits, a code of six bytes) and the flag of data that it names; for one for the next block,
  -- to its number of 32 bits and else to what the request before named; and for any other type, which
  -- the type 2 of an ACTION is too, to all that the request before left, but for the invoke id.
  pub server_services_execute-Wire :
      (s : Service) (invoke : ℕ) (w : Wire) (q : Request) {a : Array}
      → IsServed s
      → IsWire s w
      → IsValid a
      → Ahead (request_tag s ∷ wire_bytes s invoke w) a
      → server_services_execute (services_init (some db) app) (record { message = q; array = a })
        ≡ respond s db (record {
          message = heard s invoke w (set_db (λ d. record d { service = s }) q);
          array = skip (1 + length (wire_bytes s invoke w)) a;
        })
  unfolding server_services_execute services_init services run_service set_request_decoder
      action_request_decoder get_request_decoder set_or_action_decoder set_service request_tag
  server_services_execute-Wire svc_get invoke w q k ok v ahead =
      let (first, decoded) = arrives svc_get invoke w q k ok v ahead in
      rw (◌>>=◌, on_array, first, decoded) refl
  server_services_execute-Wire svc_set invoke w q k ok v ahead =
      let (first, decoded) = arrives svc_set invoke w q k ok v ahead in
      rw (◌>>=◌, on_array, first, decoded) refl
  server_services_execute-Wire svc_action invoke w q k ok v ahead =
      let (first, decoded) = arrives svc_action invoke w q k ok v ahead in
      rw (◌>>=◌, on_array, first, decoded) refl
  server_services_execute-Wire svc_unkown invoke w q k ok v ahead = absurd k
  server_services_execute-Wire svc_exception invoke w q k ok v ahead = absurd k
