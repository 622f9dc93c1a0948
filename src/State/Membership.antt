-- ===== src/State/Membership.antt =====
-- The known peers: bounded, oldest first out.
use iroh_drop.Prelude.{
  ℕ, ◌≤◌, ◌<◌, ◌≡◌, true, Bool-cases, ltb, inl, inr, false, List, [], ◌∷◌, ◌++◌, arith, length,
  length-append, ap, ◌∙◌, if◌then◌else◌, Option-cases, ◌||◌, ◌==◌,
}
use iroh_drop.Map.{nat_key, get, put, remove, contains, get-put, get-remove}
use iroh_drop.Map.Queue.{
  mem, Nodup, Nodup-push, mem-push, Agrees, Agrees-nil, Agrees-push, trim, trim-Agrees, trim_fits,
  trim_one_over,
}
use iroh_drop.Message.{EndpointId}
use iroh_drop.State.{SetOf, Peers, no_peers, note_peer, max_known_peers}

pub record IsValid (p : Peers) : Type 0 where
  pub agrees : Agrees p.known_peers p.peer_order
  pub bounded : length p.peer_order ≤ max_known_peers

-- What holds also of peers that are known without being queued, as neighbors are: the queue is bounded and
-- names known peers, each once.
pub record IsQueued (p : Peers) : Type 0 where
  pub nodup : Nodup p.peer_order
  pub known : (q : EndpointId) → mem q p.peer_order ≡ true → contains q p.known_peers ≡ true
  pub bounded : length p.peer_order ≤ max_known_peers

pub IsValid-IsQueued : (p : Peers) → IsValid p → IsQueued p
IsValid-IsQueued p v = record {
  nodup = v.agrees.nodup;
  known = λ q h. ground (arith, v.agrees.same q);
  bounded = v.bounded;
}

trim_queued :
    (cap : ℕ) (m : SetOf EndpointId) (o : List EndpointId)
    → Nodup o
    → ((q : EndpointId) → mem q o ≡ true → contains q m ≡ true)
    → let r = trim cap m o in
      Nodup r.1 × ((q : EndpointId) → mem q r.1 ≡ true → contains q r.0 ≡ true) × (length r.1 ≤ cap)
unfolding trim mem
trim_queued cap m [] n h = (tt, h, omega arith)
trim_queued cap m (old ∷ o) n h =
    let ih =
      trim_queued cap (remove old m) o n.1 (λ q e. ground (arith, get-remove old q m, h q, n.0)) in
    elim (Bool-cases (ltb cap (length (old ∷ o)))) [
      | inl over ↦ rw over ih
      | inr fits ↦ rw fits (n, h, ground arith)
    ]

-- Noting a peer keeps the queue as it should be, whoever is known beside it.
pub note_peer-IsQueued : (peer : EndpointId) (p : Peers) → IsQueued p → IsQueued (note_peer peer p)
unfolding note_peer
note_peer-IsQueued peer p v = elim (Option-cases (get peer p.known_peers)) [
  | inr (u, there) ↦ rw (there, note_peer) v
  | inl new ↦
      let t =
        trim_queued max_known_peers (put peer tt p.known_peers) (p.peer_order ++ peer ∷ [])
          (Nodup-push peer p.peer_order (ground (arith, v.known peer)) v.nodup)
          (λ q h.
            ground
              (arith, v.known q, get-put peer q tt p.known_peers, mem-push peer q p.peer_order)) in
      rw (new, note_peer) (record { nodup = t.0; known = t.1; bounded = t.2 })
]

pub no_peers-IsValid : IsValid no_peers
no_peers-IsValid = record { agrees = Agrees-nil; bounded = omega arith }

pub known_peers-le : (p : Peers) → IsValid p → length p.known_peers ≤ max_known_peers
known_peers-le p v = omega (arith, v.bounded, v.agrees.sizes)

-- Noting a peer keeps the table valid.
pub note_peer-IsValid : (peer : EndpointId) (p : Peers) → IsValid p → IsValid (note_peer peer p)
unfolding note_peer
note_peer-IsValid peer p v = elim (Option-cases (get peer p.known_peers)) [
  | inr (u, there) ↦ rw (there, note_peer) v
  | inl new ↦
      let a =
        trim-Agrees max_known_peers (put peer tt p.known_peers) (p.peer_order ++ peer ∷ [])
          (Agrees-push peer tt p.known_peers p.peer_order new v.agrees) in
      rw (new, note_peer) (record { agrees = a.0; bounded = a.1 })
]

-- A noted peer is known, and while the table is not full nobody is forgotten.
pub contains-note_peer :
    (peer q : EndpointId) (p : Peers)
    → length p.peer_order < max_known_peers
    → contains q (note_peer peer p).known_peers ≡ (peer == q || contains q p.known_peers)
unfolding note_peer
contains-note_peer peer q p room = ground (
  arith,
  get-put peer q tt p.known_peers,
  trim_fits max_known_peers (put peer tt p.known_peers) (p.peer_order ++ peer ∷ []),
  length-append p.peer_order (peer ∷ []),
)

-- In a full table a new peer takes the place of the one that was noted first.
pub contains-note_peer_full :
    (peer q oldest : EndpointId) (order : List EndpointId) (p : Peers)
    → p.peer_order ≡ oldest ∷ order
    → length p.peer_order ≡ max_known_peers
    → contains peer p.known_peers ≡ false
    → contains q (note_peer peer p).known_peers
      ≡ (if oldest == q then false else peer == q || contains q p.known_peers)
unfolding note_peer
contains-note_peer_full peer q oldest order p e full new =
    let m = put peer tt p.known_peers in
    let over : trim max_known_peers m (p.peer_order ++ peer ∷ [])
        ≡ (remove oldest m, order ++ peer ∷ []) =
      ap (λ o. trim max_known_peers m (o ++ peer ∷ [])) e
      ∙ trim_one_over max_known_peers m oldest (order ++ peer ∷ [])
          (omega (arith, length-append order (peer ∷ []), ap length e)) in
    rw (new, note_peer)
      (rw over (ground (arith, get-remove oldest q m, get-put peer q tt p.known_peers)))
