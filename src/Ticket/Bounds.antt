-- ===== src/Ticket/Bounds.antt =====
-- The bounds of a valid ticket.
use iroh_drop.Prelude.{
  ℕ, ◌≤◌, ◌<◌, ◌≡◌, ◌↔◌, ◌⊎◌, inl, inr, refl, Option, none, some, List, [], ◌∷◌, map, length, All,
  arith, false, lt→ltb,
}
use iroh_drop.Text.{Text, Bytes, byte_len}
use iroh_drop.Error.{Result, ok, err}
use iroh_drop.Message.{TopicId}
use iroh_drop.Ticket.{
  TicketError, too_many_bootstrap, from_wire, TicketAddrV1, Addresses, DropTicketOptionsV1,
  DropTicketV1, of_endpoint_addr, to_endpoint_addr, new, convertible, bootstrap_nodes,
  validate_node, validate_nodes, validate, without_key, max_bootstrap_nodes, max_direct_addrs,
  max_relay_url_len, max_display_name_len, is_name_too_long, is_url_too_long,
}

-- A text, if any, of so many bytes at most.
abbrev pub Fits : ℕ → Option Text → Type 0
Fits n none = Unit
Fits n (some s) = byte_len s ≤ n

module _ {EndpointAddr : Type 0} (iroh : Addresses EndpointAddr) where
  -- A node within the bounds, whose address converts.
  pub record IsDialable (node : TicketAddrV1) : Type 0 where
    pub v4 : length node.direct_v4 ≤ max_direct_addrs
    pub v6 : length node.direct_v6 ≤ max_direct_addrs
    pub url : Fits max_relay_url_len node.relay_url
    pub addr : EndpointAddr
    pub converts : to_endpoint_addr iroh node ≡ ok addr

  -- A ticket of a public drop without a key or of a private drop, within the bounds.
  pub record IsWithin (t : DropTicketV1) : Type 0 where
    pub mode : ((t.mode ≡ 0) × (t.drop_key ≡ none)) ⊎ (t.mode ≡ 1)
    pub few : length t.bootstrap_nodes ≤ max_bootstrap_nodes
    pub nodes : All IsDialable t.bootstrap_nodes
    pub name : Fits max_display_name_len t.options.display_name

  Fits-is_url_too_long :
      (o : Option Text) → is_url_too_long iroh o ≡ false → Fits max_relay_url_len o
  Fits-is_url_too_long none h = tt
  Fits-is_url_too_long (some s) h = ground arith

  is_url_too_long-Fits :
      (o : Option Text) → Fits max_relay_url_len o → is_url_too_long iroh o ≡ false
  is_url_too_long-Fits none h = refl
  is_url_too_long-Fits (some s) h = ground arith

  Fits-is_name_too_long :
      (o : Option Text) → is_name_too_long iroh o ≡ false → Fits max_display_name_len o
  Fits-is_name_too_long none h = tt
  Fits-is_name_too_long (some s) h = ground arith

  is_name_too_long-Fits :
      (o : Option Text) → Fits max_display_name_len o → is_name_too_long iroh o ≡ false
  is_name_too_long-Fits none h = refl
  is_name_too_long-Fits (some s) h = ground arith

  validate_node-IsDialable :
      (node : TicketAddrV1) → validate_node iroh node ≡ ok tt → IsDialable node
  unfolding validate_node
  validate_node-IsDialable node h = by_result (to_endpoint_addr iroh node) refl
    where
      by_result :
          (r : Result TicketError EndpointAddr) → to_endpoint_addr iroh node ≡ r → IsDialable node
      by_result (err e) p = absurd (ground arith)
      by_result (ok addr) p = record {
        v4 = ground arith;
        v6 = ground arith;
        url = Fits-is_url_too_long node.relay_url (ground arith);
        addr = addr;
        converts = p;
      }

  IsDialable-validate_node :
      (node : TicketAddrV1) → IsDialable node → validate_node iroh node ≡ ok tt
  unfolding validate_node
  IsDialable-validate_node node d =
      ground (arith, d.v4, d.v6, d.converts, is_url_too_long-Fits node.relay_url d.url)

  validate_nodes-IsDialable :
      (nodes : List TicketAddrV1) → validate_nodes iroh nodes ≡ ok tt → All IsDialable nodes
  unfolding validate_nodes
  validate_nodes-IsDialable [] h = tt
  validate_nodes-IsDialable (node ∷ nodes) h =
      by_result (validate_node iroh node) refl (λ e. validate_nodes-IsDialable nodes e)
    where
      by_result :
          (r : Result TicketError (Unit {0}))
          → validate_node iroh node ≡ r
          → (validate_nodes iroh nodes ≡ ok tt → All IsDialable nodes)
          → All IsDialable (node ∷ nodes)
      by_result (err e) p rest = absurd (ground arith)
      by_result (ok t) p rest = (validate_node-IsDialable node p, rest (ground arith))

  IsDialable-validate_nodes :
      (nodes : List TicketAddrV1) → All IsDialable nodes → validate_nodes iroh nodes ≡ ok tt
  unfolding validate_nodes
  IsDialable-validate_nodes [] d = refl
  IsDialable-validate_nodes (node ∷ nodes) (d, ds) =
      rw (IsDialable-validate_node node d) (IsDialable-validate_nodes nodes ds)

  validate-IsWithin : (t : DropTicketV1) → validate iroh t ≡ ok tt → IsWithin t
  unfolding validate from_wire
  validate-IsWithin t h = by_key t.drop_key refl (validate_nodes iroh t.bootstrap_nodes) refl
    where
      by_key :
          (k : Option Bytes)
          → t.drop_key ≡ k
          → (r : Result TicketError (Unit {0})) → validate_nodes iroh t.bootstrap_nodes ≡ r
          → IsWithin t
      by_key k e (err f) p = absurd (ground arith)
      by_key none e (ok u) p = record {
        mode = ground arith;
        few = ground arith;
        nodes = validate_nodes-IsDialable t.bootstrap_nodes p;
        name = Fits-is_name_too_long t.options.display_name (ground arith);
      }
      by_key (some k) e (ok u) p = record {
        mode = ground arith;
        few = ground arith;
        nodes = validate_nodes-IsDialable t.bootstrap_nodes p;
        name = Fits-is_name_too_long t.options.display_name (ground arith);
      }

  IsWithin-validate : (t : DropTicketV1) → IsWithin t → validate iroh t ≡ ok tt
  unfolding validate from_wire
  IsWithin-validate t w = ground (
    arith,
    w.mode,
    w.few,
    IsDialable-validate_nodes t.bootstrap_nodes w.nodes,
    is_name_too_long-Fits t.options.display_name w.name,
  )

  -- A ticket is valid exactly if it is of a public drop without a key or of a private drop, has at most 16
  -- nodes, each with at most 8 addresses of a kind, a relay URL of at most 255 bytes and an address that
  -- converts, and a display name of at most 255 bytes.
  pub validate_iff : (t : DropTicketV1) → (validate iroh t ≡ ok tt) ↔ IsWithin t
  validate_iff t = (validate-IsWithin t, IsWithin-validate t)

  convertible-length :
      (nodes : List TicketAddrV1)
      → All IsDialable nodes
      → length (convertible iroh nodes) ≡ length nodes
  unfolding convertible
  convertible-length [] d = refl
  convertible-length (node ∷ nodes) (d, ds) =
      rw (d.converts, length) (omega (arith, convertible-length nodes ds))

  -- No node of a valid ticket is lost when its nodes are read.
  pub length-bootstrap_nodes :
      (t : DropTicketV1)
      → validate iroh t ≡ ok tt
      → length (bootstrap_nodes iroh t) ≡ length t.bootstrap_nodes
  unfolding bootstrap_nodes
  length-bootstrap_nodes t h = convertible-length t.bootstrap_nodes (validate-IsWithin t h).nodes

  -- The ticket without its key is valid too, for a blind relay, and keeps the mode of a private drop.
  pub validate-without_key :
      (t : DropTicketV1) → validate iroh t ≡ ok tt → validate iroh (without_key t) ≡ ok tt
  unfolding without_key
  validate-without_key t h =
      let w = validate-IsWithin t h in
      IsWithin-validate (without_key t) (record {
        mode = elim w.mode [ inl p ↦ inl (p.0, refl) | inr p ↦ inr p ];
        few = w.few;
        nodes = w.nodes;
        name = w.name;
      })

  length-map : {A B : Type 0} (f : A → B) (xs : List A) → length (map f xs) ≡ length xs
  length-map f [] = refl
  length-map f (x ∷ xs) = omega (arith, length-map f xs)

  -- `new` takes any number of nodes, and with more than 16 makes a ticket that is not valid.
  pub validate-new_crowded :
      (topic : TopicId) (nodes : List EndpointAddr) (options : DropTicketOptionsV1)
      → max_bootstrap_nodes < length nodes
      → validate iroh (new iroh topic nodes options) ≡ err (too_many_bootstrap (length nodes))
  unfolding validate new
  validate-new_crowded topic nodes options h =
      rw (length-map (of_endpoint_addr iroh) nodes, lt→ltb max_bootstrap_nodes (length nodes) h)
