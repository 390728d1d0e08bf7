-- ===== src/Tests/Sessions.antt =====
-- The session table, from an empty one.
use netmux.Prelude.{◌≡◌, refl, List, [], ◌∷◌, none, some}
use netmux.Prelude.HashMap
use netmux.Prelude.HashMap.{Order, Reorders, empty, keep, swap}
use netmux.Text.{text}
use netmux.Ipv4.{read_number, parse_ip}
use netmux.Packet.{Flow}
use netmux.NatTable.{
  Session, FlowKey, out_key, ret_key, NatTable, new, new_session, register, lookup_return,
}
use netmux.NatTable.Valid.{IsValid, new-IsValid, outbound, returning}
use netmux.NatTable.Register.{register-IsValid, lookup_return-register}
use netmux.Tests.{egress_ip, client_ip, server_ip}

-- A hasher that has the first two entries visited in the other order.
abbrev pub other_way : {A : Type 0} → List A → List A
other_way [] = []
other_way (x ∷ []) = x ∷ []
other_way (x ∷ y ∷ xs) = y ∷ x ∷ xs

pub Reorders-other_way : {A : Type 0} (xs : List A) → Reorders xs (other_way xs)
Reorders-other_way [] = empty
Reorders-other_way (x ∷ []) = keep x empty
Reorders-other_way (x ∷ y ∷ xs) = swap x y

abbrev pub order : Order FlowKey Session
order = record { iter = other_way; visits = Reorders-other_way }

-- A table without sessions.
abbrev pub vacant : NatTable
vacant = new order

abbrev pub flow : Flow
flow = record { src = text "10.0.0.2"; dst = text "8.8.8.8"; proto = 6; sport = 1000; dport = 443 }

pub from : parse_ip (text "10.0.0.2") ≡ some client_ip
unfolding parse_ip read_number
from = refl

pub to : parse_ip (text "8.8.8.8") ≡ some server_ip
unfolding parse_ip read_number
to = refl

abbrev pub session : Session
session = new_session flow (text "eth0") egress_ip client_ip server_ip

-- The table with the session.
abbrev pub table : NatTable
table = record {
  by_outbound = (out_key session, session) ∷ [];
  by_return = (ret_key session, 0) ∷ [];
  index = 1;
  order = order;
}

empty_out : outbound (out_key session) vacant ≡ none
unfolding HashMap.get
empty_out = refl

empty_ret : returning (ret_key session) vacant ≡ none
unfolding HashMap.get
empty_ret = refl

register-new : register vacant flow (text "eth0") egress_ip ≡ (table, some session)
unfolding register parse_ip read_number HashMap.get HashMap.insert
register-new = refl

pub table-IsValid : IsValid table
table-IsValid =
    rw register-new at (register-IsValid vacant flow (text "eth0") egress_ip (new-IsValid order))

pub found : lookup_return table (ret_key session) ≡ some session
found =
    rw register-new at
      (lookup_return-register vacant flow (text "eth0") egress_ip client_ip server_ip from to
        (new-IsValid order) empty_out empty_ret).1

lookup_return-register_example :
    ((register vacant flow (text "eth0") egress_ip).1 ≡ some session)
    × (lookup_return (register vacant flow (text "eth0") egress_ip).0 (ret_key session)
        ≡ some session)
lookup_return-register_example =
    lookup_return-register vacant flow (text "eth0") egress_ip client_ip server_ip from to
      (new-IsValid order) empty_out empty_ret
