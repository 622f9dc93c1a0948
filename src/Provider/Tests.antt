-- ===== src/Provider/Tests.antt =====
-- Runs of the provider set, and its theorems at concrete sets.
use mathlib.Core.List.{Permᴰ}
use iroh_drop.Prelude.{
  ◌≡◌, refl, true, false, some, [], ◌∷◌, arith, ℕ_discrete, ◌==◌, if◌then◌else◌,
}
use iroh_drop.Map.{nat_key, get, put, remove, Distinct}
use iroh_drop.Provider.{
  ProviderSet, empty, default_info, pair_lt, entry, add, mark_failure, ordered, record_claim,
}
use iroh_drop.Provider.Order.{InOrder, ordered-InOrder}
use iroh_drop.Provider.Newest.{
  Claim, apply, apply_all, standing, apply_all_converges, withdrawal_stays,
}

program : Unit {0}
unfolding get put remove add mark_failure ordered entry record_claim apply apply_all standing
    ℕ_discrete
program = tt

-- Peer 1 made the offer and has failed once; peer 2 has not.
abbrev two : ProviderSet
two = record {
  original = some 1;
  providers =
      (1, record default_info { failures = 1; last_failure = some 0 }) ∷ (2, default_info) ∷ [];
}

two_lem : mark_failure 0 1 (add 2 false (add 1 true empty)) ≡ two
unfolding program
two_lem = refl

two-Distinct : Distinct two.providers
unfolding program
two-Distinct = (refl, (refl, tt))

-- The failure outweighs that peer 1 is the original offerer.
failures_come_first : ordered two ≡ 2 ∷ 1 ∷ []
unfolding program
failures_come_first = refl

ordered-InOrder_example : InOrder two (ordered two)
ordered-InOrder_example = ordered-InOrder two two-Distinct

abbrev here : Claim
here = record { id = 1; at = 5; frame = 3; withdrawn = false }

abbrev gone : Claim
gone = record { id = 1; at = 9; frame = 4; withdrawn = true }

apply_all_converges_example :
    standing 1 (apply_all (here ∷ gone ∷ []) two) ≡ standing 1 (apply_all (gone ∷ here ∷ []) two)
apply_all_converges_example =
    apply_all_converges (λ id at frame. if frame == 4 then true else false) two (here ∷ gone ∷ [])
      (gone ∷ here ∷ []) (Permᴰ.swap refl refl) (refl, (refl, tt)) (omega arith) 1

fresh_withdrawal : pair_lt 9 4 (entry 1 two).announced_at_ms (entry 1 two).last_frame_id ≡ false
unfolding program
fresh_withdrawal = refl

withdrawal_stays_example : standing 1 (apply_all (here ∷ []) (apply gone two)) ≡ some (9, 4, true)
withdrawal_stays_example =
    withdrawal_stays gone (here ∷ []) two refl fresh_withdrawal ((λ e. refl), tt) (omega arith)
