-- ===== src/Provider/Newest.antt =====
-- Assertions of providers about themselves: the newest wins, in whatever order they arrive.
use mathlib.Core.List.{Permᴰ}
use iroh_drop.Prelude.{
  ℕ, ◌+◌, ◌≤◌, ◌<◌, ◌≡◌, ◌∙◌, refl, sym, Bool, true, false, ◌&&◌, Option, none, some, List, [], ◌∷◌,
  arith, length, if◌then◌else◌, ite, if_pos, if_neg, ap, ℕ_discrete, All,
}
use iroh_drop.Map.{nat_key, get, put, get-put, length-put-le}
use iroh_drop.Message.{EndpointId, FrameId}
use iroh_drop.Provider.{
  ProviderInfo, ProviderSet, entry, record_claim, pair_lt, is_original, max_providers_per_blob,
}
use iroh_drop.Provider.Bounds.{enforce_cap_fits}

-- One assertion.
pub record Claim : Type 0 where
  pub id : EndpointId
  pub at : ℕ
  pub frame : FrameId
  pub withdrawn : Bool

unfoldable pub apply : Claim → ProviderSet → ProviderSet
unfolding record_claim
apply c s = (record_claim c.id c.at c.frame c.withdrawn s).0

-- What a set holds of the assertions of a peer: the time, the frame, and whether it has withdrawn.
abbrev pub Standing : Type 0
Standing = ℕ × FrameId × Bool

abbrev pub standing_of : ProviderInfo → Standing
standing_of i = (i.announced_at_ms, i.last_frame_id, i.withdrawn)

unfoldable pub standing : EndpointId → ProviderSet → Option Standing
standing q s = elim (get q s.providers) [ none ↦ none | some i ↦ some (standing_of i) ]

-- The newer of a standing and a claim; a claim that is no older wins.
abbrev pub newer : Option Standing → Claim → Standing
newer none c = (c.at, c.frame, c.withdrawn)
newer (some x) c = if pair_lt c.at c.frame x.0 x.1 then x else (c.at, c.frame, c.withdrawn)

-- Below the cap an assertion sets the standing of its author to the newer one, and no other.
pub standing-apply :
    (c : Claim) (s : ProviderSet) (q : EndpointId)
    → length s.providers < max_providers_per_blob
    → standing q (apply c s)
      ≡ ite (ℕ_discrete c.id q) (some (newer (standing q s) c)) (standing q s)
unfolding standing apply record_claim
standing-apply c s q room =
    let old = entry c.id s in
    let new = record old {
      announced = true;
      announced_at_ms = c.at;
      last_frame_id = c.frame;
      withdrawn = c.withdrawn;
    } in
    let m = s.providers in
    let after = record s {
      original = if c.withdrawn && is_original c.id s then none else s.original;
      providers = put c.id new m;
    } in
    ground (
      arith,
      get-put c.id q old m,
      get-put c.id q new m,
      enforce_cap_fits after (omega (arith, length-put-le c.id new m)),
    )

unfoldable pub apply_all : List Claim → ProviderSet → ProviderSet
apply_all [] s = s
apply_all (c ∷ cs) s = apply_all cs (apply c s)

-- The same on one standing.
step : EndpointId → Claim → Option Standing → Option Standing
step q c o = ite (ℕ_discrete c.id q) (some (newer o c)) o

steps : EndpointId → List Claim → Option Standing → Option Standing
steps q [] o = o
steps q (c ∷ cs) o = steps q cs (step q c o)

length-apply :
    (c : Claim) (s : ProviderSet)
    → length s.providers < max_providers_per_blob
    → length (apply c s).providers ≤ length s.providers + 1
unfolding apply record_claim
length-apply c s room =
    let old = entry c.id s in
    let new = record old {
      announced = true;
      announced_at_ms = c.at;
      last_frame_id = c.frame;
      withdrawn = c.withdrawn;
    } in
    let m = s.providers in
    let after = record s {
      original = if c.withdrawn && is_original c.id s then none else s.original;
      providers = put c.id new m;
    } in
    ground (
      arith,
      length-put-le c.id old m,
      length-put-le c.id new m,
      enforce_cap_fits after (omega (arith, length-put-le c.id new m)),
    )

standing-apply_all :
    (q : EndpointId) (cs : List Claim) (s : ProviderSet)
    → length s.providers + length cs ≤ max_providers_per_blob
    → standing q (apply_all cs s) ≡ steps q cs (standing q s)
unfolding apply_all steps step
standing-apply_all q [] s room = refl
standing-apply_all q (c ∷ cs) s room =
    let room' : length s.providers < max_providers_per_blob = omega arith in
    rw (← standing-apply c s q room')
      (standing-apply_all q cs (apply c s) (omega (arith, length-apply c s room')))

-- A frame id fixes what its frame asserts.
abbrev pub Honest : (EndpointId → ℕ → FrameId → Bool) → List Claim → Type 0
Honest meaning = All (λ c. c.withdrawn ≡ meaning c.id c.at c.frame)

step_comm :
    (meaning : EndpointId → ℕ → FrameId → Bool) (q : EndpointId) (c d : Claim) (o : Option Standing)
    → c.withdrawn ≡ meaning c.id c.at c.frame
    → d.withdrawn ≡ meaning d.id d.at d.frame
    → step q d (step q c o) ≡ step q c (step q d o)
unfolding step
step_comm meaning q c d o h k = ground arith

perm-Honest :
    (meaning : EndpointId → ℕ → FrameId → Bool) {cs ds : List Claim}
    → Permᴰ cs ds
    → Honest meaning cs
    → Honest meaning ds
perm-Honest meaning Permᴰ.nil h = h
perm-Honest meaning (Permᴰ.cons e p) h = (rw e at h.0, perm-Honest meaning p h.1)
perm-Honest meaning (Permᴰ.swap e f) h = (rw f at h.1.0, (rw e at h.0, h.1.1))
perm-Honest meaning (Permᴰ.trans p r) h = perm-Honest meaning r (perm-Honest meaning p h)

steps-perm :
    (meaning : EndpointId → ℕ → FrameId → Bool) (q : EndpointId) {cs ds : List Claim}
    → Permᴰ cs ds
    → Honest meaning cs
    → (o : Option Standing) → steps q cs o ≡ steps q ds o
unfolding steps
steps-perm meaning q Permᴰ.nil h o = refl
steps-perm meaning q (Permᴰ.cons {a} {l₂ = ds} e p) h o =
    steps-perm meaning q p h.1 (step q a o) ∙ ap (λ c. steps q ds (step q c o)) e
steps-perm meaning q (Permᴰ.swap {a} {b} {l} e f) h o =
    rw (← e, ← f) (ap (steps q l) (step_comm meaning q a b o h.0 h.1.0))
steps-perm meaning q (Permᴰ.trans p r) h o =
    steps-perm meaning q p h o ∙ steps-perm meaning q r (perm-Honest meaning p h) o

perm-length : {cs ds : List Claim} → Permᴰ cs ds → length cs ≡ length ds
perm-length Permᴰ.nil = refl
perm-length (Permᴰ.cons e p) = omega (arith, perm-length p)
perm-length (Permᴰ.swap e f) = refl
perm-length (Permᴰ.trans p r) = perm-length p ∙ perm-length r

-- Below the cap, the same assertions in any order leave every peer with the same standing, if a
-- frame id fixes what its frame asserts.
pub apply_all_converges :
    (meaning : EndpointId → ℕ → FrameId → Bool) (s : ProviderSet) (cs ds : List Claim)
    → Permᴰ cs ds
    → Honest meaning cs
    → length s.providers + length cs ≤ max_providers_per_blob
    → (q : EndpointId) → standing q (apply_all cs s) ≡ standing q (apply_all ds s)
apply_all_converges meaning s cs ds p h room q =
    standing-apply_all q cs s room
    ∙ steps-perm meaning q p h (standing q s)
    ∙ sym (standing-apply_all q ds s (omega (arith, perm-length p)))

-- `c` is older than the assertion of `id` at `at` in `frame`, or is another peer's.
abbrev pub IsOlder : EndpointId → ℕ → FrameId → Claim → Type 0
IsOlder id at frame c = c.id ≡ id → pair_lt c.at c.frame at frame ≡ true

steps_older :
    (id : EndpointId) (x : Standing) (cs : List Claim)
    → All (IsOlder id x.0 x.1) cs
    → steps id cs (some x) ≡ some x
unfolding steps step
steps_older id x [] h = refl
steps_older id x (c ∷ cs) h = elim (ℕ_discrete c.id id) [
  | yes e ↦ rw (if_pos (ℕ_discrete c.id id) e, h.0 e) (steps_older id x cs h.1)
  | no ne ↦ rw (if_neg (ℕ_discrete c.id id) ne) (steps_older id x cs h.1)
]

standing_fresh :
    (c : Claim) (s : ProviderSet)
    → c.withdrawn ≡ true
    → pair_lt c.at c.frame (entry c.id s).announced_at_ms (entry c.id s).last_frame_id ≡ false
    → length s.providers < max_providers_per_blob
    → standing c.id (apply c s) ≡ some (c.at, c.frame, true)
unfolding standing entry
standing_fresh c s w fresh room = standing-apply c s c.id room ∙ ground arith

-- A withdrawal that is newer than what was known is not undone by older assertions that arrive
-- later, below the cap.
pub withdrawal_stays :
    (c : Claim) (cs : List Claim) (s : ProviderSet)
    → c.withdrawn ≡ true
    → pair_lt c.at c.frame (entry c.id s).announced_at_ms (entry c.id s).last_frame_id ≡ false
    → All (IsOlder c.id c.at c.frame) cs
    → length s.providers + 1 + length cs ≤ max_providers_per_blob
    → standing c.id (apply_all cs (apply c s)) ≡ some (c.at, c.frame, true)
withdrawal_stays c cs s w fresh older room =
    let room' : length s.providers < max_providers_per_blob = omega arith in
    standing-apply_all c.id cs (apply c s) (omega (arith, length-apply c s room'))
    ∙ ap (steps c.id cs) (standing_fresh c s w fresh room')
    ∙ steps_older c.id (c.at, c.frame, true) cs older
