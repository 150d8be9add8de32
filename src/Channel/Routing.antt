-- ===== src/Channel/Routing.antt =====
-- Where a packet goes: the services are closed without an association.
use cosemlib.Base.{ℕ, if◌then◌else◌, fault, Option, none, some, Exec, ret}
use cosemlib.Array.{Array}
use cosemlib.Association.{Association, Hal}
use cosemlib.Services.Server.{App}
use cosemlib.Channel.{Channel}
use cosemlib.Channel.Execute.{Net, is_asso_tag, run_asso, other_packet}

abbrev routed : Hal → App → ℕ → ℕ → Association → Channel → Net → Exec Array (Option ℕ) → Exec Net ℕ
routed hal app channel i a c n (ret none p) = ret 0 (record n { packet = p })
routed hal app channel i a c n (ret (some tag) p) =
    (if is_asso_tag tag
        then run_asso hal app channel i a
        else other_packet hal app channel i a.state_cf c)
      (record n { packet = p })
routed hal app channel i a c n fault = fault
