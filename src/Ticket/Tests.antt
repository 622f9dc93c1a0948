-- ===== src/Ticket/Tests.antt =====
-- Tickets with two nodes and with too many, in a toy encoding.
use iroh_drop.Prelude.{
  ℕ, zero, suc, ◌+◌, ◌-◌, ◌*◌, ◌/◌, ◌%◌, ◌<◌, ◌≡◌, ◌↔◌, inl, refl, Bool, true, false, Option, none,
  some, List, [], ◌∷◌, ◌++◌, length, All, arith, ◌==◌,
}
use iroh_drop.Text.{Text, Bytes, codes}
use iroh_drop.Error.{ok, err, ◌>>=◌}
use iroh_drop.Serial.{Serial, number, both, list, option, as_other, format}
use iroh_drop.Frame.{Format}
use iroh_drop.Ticket.{
  TicketAddrV1, Addresses, TransportAddr, relay, ip_v4, custom_transport, DropTicketOptionsV1,
  DropTicketV1, Base32, bad_prefix, too_many_bootstrap, note_transport, note_transports,
  of_endpoint_addr, relay_addrs, to_endpoint_addr, new, new_private, convertible, bootstrap_nodes,
  validate_node, validate_nodes, validate, from_wire, to_wire, strip_prefix, to_string_prefixed,
  decode_ticket, from_string_prefixed,
}
use iroh_drop.Ticket.Bounds.{IsWithin, validate_iff}
use iroh_drop.Ticket.Printed.{
  IsSymbol, IsBase32, from_string_prefixed-IsWithin, from_string_prefixed-to_string_prefixed,
  from_string_prefixed-new_crowded, from_string_prefixed-legacy,
}

abbrev Addr : Type 0
Addr = Bytes × List TransportAddr

unfoldable iroh : Addresses Addr
iroh = record {
  id_of = λ a. a.0;
  addrs_of = λ a. a.1;
  from_parts = λ id addrs. (id, addrs);
  is_endpoint_id = λ b. length b == 2;
  parse_url = λ url. some url;
}

-- Two letters for a byte.
unfoldable letters : Bytes → Text
letters [] = []
letters (x ∷ b) = (65 + x / 16) ∷ (65 + x % 16) ∷ letters b

abbrev cons_byte : ℕ → ℕ → Option Bytes → Option Bytes
cons_byte c d none = none
cons_byte c d (some b) = some (((c - 65) * 16 + (d - 65)) ∷ b)

unfoldable of_letters : Text → Option Bytes
of_letters [] = some []
of_letters (c ∷ []) = none
of_letters (c ∷ d ∷ s) = cons_byte c d (of_letters s)

symbols : (b : Bytes) → All (λ x. x < 256) b → All IsSymbol (letters b)
unfolding letters
symbols [] h = tt
symbols (x ∷ b) (lt, h) =
    (inl (omega arith, omega arith), (inl (omega arith, omega arith), symbols b h))

of_letters-letters : (b : Bytes) → All (λ x. x < 256) b → of_letters (letters b) ≡ some b
unfolding letters of_letters
of_letters-letters [] h = refl
of_letters-letters (x ∷ b) (lt, h) = rw (of_letters-letters b h) (ground arith)

unfoldable base32 : Base32
unfolding letters of_letters
base32 = record { encode = letters; decode = of_letters }

base32-IsBase32 : IsBase32 base32
unfolding base32
base32-IsBase32 = record { symbols = symbols; decode-encode = of_letters-letters }

unfoldable numbers : Serial Bytes
unfolding list number
numbers = list number

unfoldable addresses : Serial TicketAddrV1
unfolding as_other both numbers option list number
addresses =
    as_other (λ a. (a.endpoint_id, (a.relay_url, (a.direct_v4, a.direct_v6))))
      (λ (i, (r, (v, w))). record { endpoint_id = i; relay_url = r; direct_v4 = v; direct_v6 = w })
      (λ a. refl)
      (both numbers
        (both (option numbers) (both (list (both numbers number)) (list (both numbers number)))))

abbrev bit : Bool → ℕ
bit true = 1
bit false = 0

bit-eq : (b : Bool) → (bit b == 1) ≡ b
bit-eq true = refl
bit-eq false = refl

unfoldable options : Serial DropTicketOptionsV1
unfolding as_other both numbers option number bit-eq
options =
    as_other (λ o. (o.auto_fetch_recommended, o.display_name))
      (λ (a, n). record { auto_fetch_recommended = a; display_name = n }) (λ o. refl)
      (both (as_other bit (λ n. n == 1) bit-eq number) (option numbers))

unfoldable tickets : Serial DropTicketV1
unfolding as_other both numbers number list option addresses options
tickets =
    as_other
      (λ t. (t.version, (t.topic_id, (t.bootstrap_nodes, (t.options, (t.mode, t.drop_key))))))
      (λ (v, (i, (b, (o, (m, k))))). record {
        version = v;
        topic_id = i;
        bootstrap_nodes = b;
        options = o;
        mode = m;
        drop_key = k;
      })
      (λ t. refl)
      (both number
        (both numbers (both (list addresses) (both options (both number (option numbers))))))

unfoldable postcard : Format DropTicketV1
unfolding format tickets
postcard = format tickets

program : Unit {0}
unfolding iroh base32 postcard note_transport note_transports of_endpoint_addr relay_addrs
    to_endpoint_addr new new_private convertible bootstrap_nodes validate_node validate_nodes
    validate from_wire to_wire strip_prefix to_string_prefixed decode_ticket from_string_prefixed
program = tt

abbrev no_options : DropTicketOptionsV1
no_options = record { auto_fetch_recommended = true; display_name = some (codes "photos") }

abbrev node : ℕ → Addr
node n = (
  n ∷ 1 ∷ [],
  relay (codes "https://relay") ∷ ip_v4 (127 ∷ 0 ∷ 0 ∷ n ∷ [], 80) ∷ custom_transport ∷ [],
)

unfoldable private_ticket : DropTicketV1
unfolding program
private_ticket = new_private iroh (7 ∷ 7 ∷ []) (node 1 ∷ node 2 ∷ []) no_options (9 ∷ 8 ∷ [])

unfoldable printed : Text
unfolding program private_ticket
printed = to_string_prefixed iroh base32 postcard.write postcard.read private_ticket

parses :
    from_string_prefixed iroh base32 postcard.write postcard.read (32 ∷ printed ++ 10 ∷ [])
    ≡ ok private_ticket
unfolding program private_ticket printed
parses = refl

other_texts_are_refused :
    from_string_prefixed iroh base32 postcard.write postcard.read (codes "dropq") ≡ err bad_prefix
unfolding program
other_texts_are_refused = refl

from_string_prefixed-to_string_prefixed_example :
    from_string_prefixed iroh base32 postcard.write postcard.read
      (to_string_prefixed iroh base32 postcard.write postcard.read private_ticket)
    ≡ (validate iroh private_ticket >>= λ u. ok private_ticket)
unfolding program private_ticket
from_string_prefixed-to_string_prefixed_example =
    from_string_prefixed-to_string_prefixed iroh base32 postcard.write postcard.read base32-IsBase32
      private_ticket (omega arith) refl refl (omega arith)

from_string_prefixed-IsWithin_example :
    (private_ticket.version ≡ 3)
    × IsWithin iroh private_ticket
    × (length (bootstrap_nodes iroh private_ticket) ≡ length private_ticket.bootstrap_nodes)
from_string_prefixed-IsWithin_example =
    from_string_prefixed-IsWithin iroh base32 postcard.write postcard.read (32 ∷ printed ++ 10 ∷ [])
      private_ticket parses

small_tickets_are_valid : (validate iroh private_ticket ≡ ok tt) ↔ IsWithin iroh private_ticket
small_tickets_are_valid = validate_iff iroh private_ticket

abbrev crowd : ℕ → List Addr
crowd zero = []
crowd (suc n) = (n ∷ 1 ∷ [], []) ∷ crowd n

unfoldable crowded : DropTicketV1
unfolding program
crowded = new iroh (7 ∷ []) (crowd 17) no_options

from_string_prefixed-new_crowded_example :
    from_string_prefixed iroh base32 postcard.write postcard.read (
      to_string_prefixed iroh base32 postcard.write postcard.read
        (new iroh (7 ∷ []) (crowd 17) no_options))
    ≡ err (too_many_bootstrap (length (crowd 17)))
unfolding program
from_string_prefixed-new_crowded_example =
    from_string_prefixed-new_crowded iroh base32 postcard.write postcard.read base32-IsBase32
      (7 ∷ []) (crowd 17) no_options (omega arith) (omega arith) refl (omega arith)

reads_the_legacy_prefix :
    from_string_prefixed iroh base32 postcard.write postcard.read (codes "drop1" ++ codes "q7a")
    ≡ from_string_prefixed iroh base32 postcard.write postcard.read (codes "drop2" ++ codes "q7a")
reads_the_legacy_prefix =
    from_string_prefixed-legacy iroh base32 postcard.write postcard.read (codes "q7a")
      (refl, (refl, (refl, tt)))
