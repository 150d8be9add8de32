-- ===== src/Services/Wire.antt =====
-- The requests that arrive, as the bytes behind the tag, and what `svc_decode_request` makes of them.
use cosemlib.Base.{
  ℕ, ◌<◌, ◌≡◌, ◌≢◌, ap, ◌∙◌, ◌>>=◌, Bool, false, List, [], ◌∷◌, arith, length, M, ◌==◌,
}
use cosemlib.Base.Words.{u16_mod, u32_mod, put_be32}
use cosemlib.Array.Consume.{read_u8-Reads}
use cosemlib.Services.{
  Service, svc_unkown, svc_get, svc_set, svc_action, svc_exception, Request, Exchange, is_action,
  is_get,
}
use cosemlib.Services.Coding.{
  set_db, set_sel_access, set_additional, decode_request, request_body, is_next_request,
}
use cosemlib.Services.Takes.{Takes, Takes-pure, Takes-&&&, Takes-&&>, take_u8-Takes, take_u32-Takes}
use cosemlib.Services.RoundTrip.{request_bytes, named_as, normal_request-Takes}
use cosemlib.Services.Delivery.{no_access_Takes, presence_Takes, absent_Takes, no_selection_Takes}

-- A normal request with the name of an object and, where its service has it, a flag of data; one for
-- the next block; and one of any other type.
pub data Wire : Type 0 where
  normal : Request → ℕ → Wire
  next : ℕ → Wire
  other : ℕ → Wire

-- The services of the server.
abbrev pub IsServed : Service → Type 0
IsServed svc_get = Unit {0}
IsServed svc_set = Unit {0}
IsServed svc_action = Unit {0}
IsServed svc_unkown = ⊥
IsServed svc_exception = ⊥

-- The numbers of a normal request and of a block fit, an ACTION has no next block, and other types are those that
-- are neither normal nor next.
abbrev pub IsWire : Service → Wire → Type 0
IsWire s (normal r flag) =
    (r.db_request.logical_name.class_id < u16_mod) × (length r.db_request.logical_name.obis ≡ 6)
IsWire s (next block) = (is_action s ≡ false) × (block < u32_mod)
IsWire s (other type) = (type ≢ 1) × (is_next_request type s ≡ false)

abbrev invoked : ℕ → Request → Request
invoked invoke r = record r { sender_invoke_id = invoke }

-- No selective access, and the flag of the data.
abbrev flags : Service → ℕ → List ℕ
flags svc_get flag = 0 ∷ []
flags svc_set flag = 0 ∷ flag ∷ []
flags _ flag = flag ∷ []

abbrev pub wire_bytes : Service → ℕ → Wire → List ℕ
wire_bytes s invoke (normal r flag) = request_bytes (invoked invoke r) (flags s flag)
wire_bytes s invoke (next block) = 2 ∷ invoke ∷ put_be32 block
wire_bytes s invoke (other type) = type ∷ invoke ∷ []

abbrev flagged : Service → ℕ → Request → Request
flagged svc_get flag q = set_sel_access 0 q
flagged svc_set flag q = set_additional flag (set_sel_access 0 q)
flagged _ flag q = set_additional flag q

-- The request that is then answered: a normal one takes the name that it has, one for a block the number of
-- the block, and any other one keeps everything of the request before but the invoke id.
abbrev pub heard : Service → ℕ → Wire → Request → Request
heard s invoke (normal r flag) q = flagged s flag (named_as (invoked invoke r) q)
heard s invoke (next block) q = set_db (λ d. record d { block_number = block }) (invoked invoke q)
heard s invoke (other type) q = invoked invoke q

module _ (hal : M (Exchange Request) Bool) where
  normal-Takes :
      (s : Service) (invoke flag : ℕ) (r q : Request)
      → IsServed s
      → q.db_request.service ≡ s
      → IsWire s (normal r flag)
      → Takes
          (decode_request hal)
          (wire_bytes s invoke (normal r flag))
          q
          (heard s invoke (normal r flag) q)
  normal-Takes svc_get invoke flag r q k e w =
      let named = named_as (invoked invoke r) q in
      normal_request-Takes hal (invoked invoke r) q (w.0) (w.1)
        (no_access_Takes hal r q named (ap is_action e))
        (absent_Takes hal r q (set_sel_access 0 named) (ap is_get e))
  normal-Takes svc_set invoke flag r q k e w =
      let named = named_as (invoked invoke r) q in
      normal_request-Takes hal (invoked invoke r) q (w.0) (w.1)
        (no_access_Takes hal r q named (ap is_action e))
        (presence_Takes hal r q (set_sel_access 0 named) flag (ap is_get e))
  normal-Takes svc_action invoke flag r q k e w =
      let named = named_as (invoked invoke r) q in
      normal_request-Takes hal (invoked invoke r) q (w.0) (w.1)
        (no_selection_Takes hal r q named (ap is_action e))
        (presence_Takes hal r q named flag (ap is_get e))
  normal-Takes svc_unkown invoke flag r q k e w = absurd k
  normal-Takes svc_exception invoke flag r q k e w = absurd k

  next-Takes :
      (s : Service) (invoke block : ℕ) (q : Request)
      → q.db_request.service ≡ s
      → IsWire s (next block)
      → Takes
          (decode_request hal)
          (wire_bytes s invoke (next block))
          q
          (heard s invoke (next block) q)
  unfolding decode_request
  next-Takes s invoke block q e w =
      let no_action : is_action q.db_request.service ≡ false = ap is_action e ∙ w.0 in
      let body : Takes (request_body hal 2) (put_be32 block) (invoked invoke q)
          (heard s invoke (next block) q) =
        record {
          run = λ a v h.
              rw (◌>>=◌, no_action)
                ((take_u32-Takes (λ n. set_db (λ d. record d { block_number = n })) block (w.1)).run
                  a v h);
        } in
      Takes-&&> _ (read_u8-Reads 2) (Takes-&&& (take_u8-Takes _ invoke) body)

  other-Takes :
      (s : Service) (invoke type : ℕ) (q : Request)
      → q.db_request.service ≡ s
      → IsWire s (other type)
      → Takes
          (decode_request hal)
          (wire_bytes s invoke (other type))
          q
          (heard s invoke (other type) q)
  unfolding decode_request
  other-Takes s invoke type q e w =
      let not_normal : (type == 1) ≡ false = ground (arith, w.0) in
      let not_next : is_next_request type q.db_request.service ≡ false =
        ap (is_next_request type) e ∙ w.1 in
      let body : Takes (request_body hal type) [] (invoked invoke q) (invoked invoke q) = record {
        run = λ a v h. rw (◌>>=◌, not_normal, not_next) ((Takes-pure _).run a v h);
      } in
      Takes-&&> _ (read_u8-Reads type) (Takes-&&& (take_u8-Takes _ invoke) body)

  pub decode_request-Takes :
      (s : Service) (invoke : ℕ) (w : Wire) (q : Request)
      → IsServed s
      → q.db_request.service ≡ s
      → IsWire s w
      → Takes (decode_request hal) (wire_bytes s invoke w) q (heard s invoke w q)
  decode_request-Takes s invoke (normal r flag) q k e w = normal-Takes s invoke flag r q k e w
  decode_request-Takes s invoke (next block) q k e w = next-Takes s invoke block q e w
  decode_request-Takes s invoke (other type) q k e w = other-Takes s invoke type q e w
