-- ===== src/Association/Server.antt =====
-- src/csm_association.c: the state machine of the server's association.
use cosemlib.Base.{
  ℕ, Bool, true, false, List, [], ◌∷◌, none, some, if◌then◌else◌, leb, ◌==◌, take, splice,
  same_bytes, ret, fault, M, pure, get, ◌>>=◌, ◌>>◌,
}
use cosemlib.Array
use cosemlib.Association.{
  Association, Session, Hal, Handshake, StateCf, Referencing, AuthLevel, on_array, set_asso,
  set_handshake, err_null, auth_not_recognized, auth_failure, auth_required, aarq, aare, rlrq, rlre,
}
use cosemlib.Association.Decode.{decoder}
use cosemlib.Association.Encode.{encoder, reset_writer}

-- `csm_asso_init`
unfoldable pub init : Association → Association
init a = record a {
  state_cf = StateCf.idle;
  auth_level = AuthLevel.lowest;
  ref = Referencing.no_ref;
  handshake = record a.handshake { result = err_null };
}

-- The state and the result of the handshake, set together.
abbrev pub conclude : StateCf → ℕ → Association → Association
conclude st r a = record a { state_cf = st; handshake = record a.handshake { result = r } }

-- The password that `csm_hal_get_lls_password` writes over the challenge of the server.
abbrev pub with_password : List ℕ → Handshake → Handshake
with_password bs h = record h { stoc = record h.stoc { value = splice 0 bs h.stoc.value } }

-- The low level: as many bytes are compared as the client's challenge has, within both buffers.
unfoldable pub check_password : Hal → M Session Bool
check_password hal s = elim s.asso.config [
  | none ↦ fault
  | some c ↦
      let h = with_password (hal.lls_password c.llc.dsap 8) s.asso.handshake in
      let a = record s.asso { handshake = h } in
      if leb h.ctos.size 64
      then (if same_bytes (take h.ctos.size h.stoc.value) (take h.ctos.size h.ctos.value)
          then ret true (record s { asso = conclude StateCf.associated err_null a })
          else ret false (record s { asso = conclude a.state_cf auth_failure a }))
      else fault
]

-- `csm_asso_is_granted` in the idle state, by the authentication level.
unfoldable pub grant : Hal → AuthLevel → M Session Bool
unfolding check_password
grant hal AuthLevel.lowest = set_asso (conclude StateCf.associated err_null) >> pure true
grant hal AuthLevel.low = check_password hal
grant hal AuthLevel.gmac =
    set_asso (conclude StateCf.association_pending auth_required) >> pure true
grant hal _ = set_handshake (λ h. record h { result = auth_not_recognized }) >> pure false

unfoldable pub is_granted : Hal → M Session Bool
is_granted hal = do
  s ← get
  elim s.asso.state_cf [ StateCf.idle ↦ grant hal s.asso.auth_level | _ ↦ pure false ]

-- The fixed reply to a release request.
abbrev pub rlre_bytes : List ℕ
rlre_bytes = rlre ∷ 3 ∷ 0x80 ∷ 1 ∷ 0 ∷ []

unfoldable pub release : M Session ℕ
release = do
  byte ← on_array (Array.get_byte 0)
  elim byte [
    | none ↦ pure 0
    | some b ↦
        if b == rlrq
        then (do
          set_asso (λ a. record a { state_cf = StateCf.idle })
          reset_writer
          _ ← on_array (Array.write_buff rlre_bytes)
          pure 5)
        else pure 0
  ]

unfoldable pub establish : Hal → M Session ℕ
unfolding is_granted
establish hal = do
  decoded ← decoder hal aarq
  if decoded
      then (do
        _ ← is_granted hal
        encoded ← encoder hal aare
        s ← get
        pure (if encoded then s.array.wr_index else 0))
      else pure 0

-- `csm_asso_server_execute`: the number of bytes to reply.
unfoldable pub server_execute : Hal → M Session ℕ
unfolding release establish
server_execute hal = do
  s ← get
  elim s.asso.state_cf [ StateCf.idle ↦ establish hal | StateCf.associated ↦ release | _ ↦ pure 0 ]
