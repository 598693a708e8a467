-- ===== src/Router/Listeners/Tests.antt =====
-- Three blocks on two ports, a mixture that is refused, and the theorem at the first.
use elrond.Base.{
  err, ℕ, ◌≡◌, refl, Option, none, some, List, [], ◌∷◌, arith, ◌==◌, Text, codes, IfOk,
}
use elrond.Router.Listeners.{Staged, mixed_tls, stage, add_vhost, group, group_onto}
use elrond.Router.Listeners.Grouped.{IsEquality}
use elrond.Router.Listeners.Whole.{IsGrouped, group-IsGrouped}

abbrev on_port : ℕ → ℕ → Option Text → Staged ℕ ℕ Text
on_port port n c = record {
  addr = port;
  vhost = record { server_name = none; state = n };
  cert = c;
}

abbrev three : List (Staged ℕ ℕ Text)
three = on_port 80 0 none ∷ on_port 443 1 (some (codes "a.pem")) ∷ on_port 80 2 none ∷ []

mixture_refused :
    group (λ a b. a == b) (on_port 80 0 none ∷ on_port 80 1 (some (codes "a.pem")) ∷ [])
    ≡ err (mixed_tls 80)
unfolding group_onto stage add_vhost
mixture_refused = refl

port-IsEquality : IsEquality (λ (a b : ℕ). a == b)
port-IsEquality = record { sound = λ a b h. ground (arith, h); complete = λ a. ground arith }

group-IsGrouped_example : IfOk (group (λ a b. a == b) three) (IsGrouped (λ a b. a == b) three)
group-IsGrouped_example = group-IsGrouped (λ a b. a == b) port-IsEquality three
