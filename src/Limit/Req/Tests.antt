-- ===== src/Limit/Req/Tests.antt =====
-- A zone that refills one token a second, on whole numbers, and the theorems at it.
use elrond.Base.{
  ℕ, ◌+◌, ◌-◌, ◌*◌, ◌/◌, min, ◌≡◌, refl, true, false, some, [], ◌∷◌, arith, leb, get_elem?, codes,
  text_eq, lookup, insert,
}
use elrond.Limit.Req.{Float, Zone, drop_oldest, make_room, allow_locked}
use elrond.Limit.Req.Burst.{IsExact, answers, answers-fresh}

abbrev whole : Float
whole = record {
  Val = ℕ;
  of_ℕ = λ n. n;
  seconds = λ ns. ns / 1000000000;
  add = ◌+◌;
  sub = ◌-◌;
  mul = ◌*◌;
  least = min;
  ge = λ a b. leb b a;
  is_finite = λ _. true;
}

whole-IsExact : IsExact whole
whole-IsExact = record {
  add_one = λ a h. omega arith;
  sub_one = λ a h. omega arith;
  least_le = λ a b h k. omega arith;
  ge_one = λ a h. refl;
  no_time = λ a r h f. omega arith;
}

abbrev zone : Zone whole
zone = record { rate_per_sec = 1; max_entries = 2; buckets = [] }

-- a burst of one: two at once, one more after a second
drained : (answers whole 0 (codes "a") 1 3 zone ≡ true ∷ true ∷ false ∷ [])
unfolding answers allow_locked make_room drop_oldest lookup insert text_eq
drained = refl

answers-fresh_example : get_elem? (answers whole 7 (codes "a") 1 3 zone) 2 ≡ some false
unfolding lookup
answers-fresh_example =
    answers-fresh whole 7 (codes "a") 1 3 2 zone whole-IsExact refl (omega arith) refl (omega arith)
