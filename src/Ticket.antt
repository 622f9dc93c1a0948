-- ===== src/Ticket.antt =====
-- Drop tickets, of crates/iroh-drop/src/ticket.rs: their schema, their bounds, and the text that they are
-- printed as. postcard, base32 and the addresses of iroh are parameters.
pub mod Bounds
pub mod Printed
mod Tests
use iroh_drop.Prelude.{
  ℕ, zero, suc, ◌+◌, ◌-◌, Bool, true, false, not, ◌&&◌, ◌||◌, Option, none, some, List, [], ◌∷◌,
  ◌++◌, map, length, leb, ltb, ◌==◌, if◌then◌else◌, All, ◌≡◌, ◌<◌, ◌≤◌, ◌⊎◌,
}
use iroh_drop.Text.{Text, Bytes, codes, byte_len}
use iroh_drop.Error.{Result, ok, err, ◌>>=◌, ◌>>◌, refuse_if}
use iroh_drop.Message.{TopicId}
use iroh_drop.Hash.{trim_start, trim_end, to_ascii_lowercase}

abbrev pub ticket_prefix : Text
ticket_prefix = codes "drop2"

abbrev pub legacy_ticket_prefix : Text
legacy_ticket_prefix = codes "drop1"

abbrev pub ticket_schema_version : ℕ
ticket_schema_version = 3

abbrev pub max_ticket_len : ℕ
max_ticket_len = 8192

abbrev pub max_bootstrap_nodes : ℕ
max_bootstrap_nodes = 16

abbrev pub max_direct_addrs : ℕ
max_direct_addrs = 8

abbrev pub max_relay_url_len : ℕ
max_relay_url_len = 255

abbrev pub max_display_name_len : ℕ
max_display_name_len = 255

-- The texts of `TicketError::Malformed`.
pub data TicketFault : Type 0 where
  unknown_mode : ℕ → TicketFault
  bad_endpoint_id bad_relay_url bad_base32 bad_postcard key_of_public_ticket : TicketFault
  too_many_direct_addresses relay_url_too_long : TicketFault

pub data TicketError : Type 0 where
  too_long unsupported_version too_many_bootstrap : ℕ → TicketError
  bad_prefix display_name_too_long : TicketError
  malformed : TicketFault → TicketError

pub data DropMode : Type 0 where
  public_drop sealed_drop : DropMode

unfoldable pub from_wire : ℕ → Result TicketError DropMode
from_wire v =
    if v == 0
    then ok public_drop
    else if v == 1
    then ok sealed_drop
    else err (malformed (unknown_mode v))

unfoldable pub to_wire : DropMode → ℕ
to_wire public_drop = 0
to_wire sealed_drop = 1

-- Addresses are octets with a port.
pub record TicketAddrV1 : Type 0 where
  pub endpoint_id : Bytes
  pub relay_url : Option Text
  pub direct_v4 : List (Bytes × ℕ)
  pub direct_v6 : List (Bytes × ℕ)

-- The cases of iroh's `TransportAddr` that the conversions tell apart.
pub data TransportAddr : Type 0 where
  relay : Text → TransportAddr
  ip_v4 ip_v6 : Bytes × ℕ → TransportAddr
  custom_transport : TransportAddr

-- The addresses of iroh: their parts, the making of one, which bytes are an id, and the parsing of a URL.
pub record Addresses (EndpointAddr : Type 0) : Type 0 where
  pub id_of : EndpointAddr → Bytes
  pub addrs_of : EndpointAddr → List TransportAddr
  pub from_parts : Bytes → List TransportAddr → EndpointAddr
  pub is_endpoint_id : Bytes → Bool
  pub parse_url : Text → Option Text

pub record DropTicketOptionsV1 : Type 0 where
  pub auto_fetch_recommended : Bool
  pub display_name : Option Text

pub record DropTicketV1 : Type 0 where
  pub version : ℕ
  pub topic_id : TopicId
  pub bootstrap_nodes : List TicketAddrV1
  pub options : DropTicketOptionsV1
  pub mode : ℕ
  pub drop_key : Option Bytes

-- One round of the `for` loop of `from`.
unfoldable pub note_transport : TransportAddr → TicketAddrV1 → TicketAddrV1
note_transport (relay url) out = record out { relay_url = some url }
note_transport (ip_v4 a) out = record out { direct_v4 = out.direct_v4 ++ a ∷ [] }
note_transport (ip_v6 a) out = record out { direct_v6 = out.direct_v6 ++ a ∷ [] }
note_transport custom_transport out = out

unfoldable pub note_transports : List TransportAddr → TicketAddrV1 → TicketAddrV1
unfolding note_transport
note_transports [] out = out
note_transports (a ∷ addrs) out = note_transports addrs (note_transport a out)

abbrev pub is_some : {A : Type 0} → Option A → Bool
is_some none = false
is_some (some a) = true

abbrev pub is_public : DropMode → Bool
is_public public_drop = true
is_public sealed_drop = false

module _ {EndpointAddr : Type 0} (iroh : Addresses EndpointAddr) where
  unfoldable pub of_endpoint_addr : EndpointAddr → TicketAddrV1
  unfolding note_transports
  of_endpoint_addr addr =
      note_transports (iroh.addrs_of addr)
        (record { endpoint_id = iroh.id_of addr; relay_url = none; direct_v4 = []; direct_v6 = [] })

  -- The relay's transport, if there is a relay.
  unfoldable pub relay_addrs : Option Text → Result TicketError (List TransportAddr)
  relay_addrs none = ok []
  relay_addrs (some text) = elim (iroh.parse_url text) [
    | none ↦ err (malformed bad_relay_url)
    | some url ↦ ok (relay url ∷ [])
  ]

  unfoldable pub to_endpoint_addr : TicketAddrV1 → Result TicketError EndpointAddr
  unfolding relay_addrs
  to_endpoint_addr wire =
      if not (iroh.is_endpoint_id wire.endpoint_id)
      then err (malformed bad_endpoint_id)
      else (relay_addrs wire.relay_url >>= λ addrs. ok (
          iroh.from_parts wire.endpoint_id
            (addrs ++ (map ip_v4 wire.direct_v4 ++ map ip_v6 wire.direct_v6))))

  unfoldable pub new : TopicId → List EndpointAddr → DropTicketOptionsV1 → DropTicketV1
  unfolding of_endpoint_addr to_wire
  new topic_id bootstrap_nodes options = record {
    version = ticket_schema_version;
    topic_id = topic_id;
    bootstrap_nodes = map of_endpoint_addr bootstrap_nodes;
    options = options;
    mode = to_wire public_drop;
    drop_key = none;
  }

  unfoldable pub new_private :
      TopicId → List EndpointAddr → DropTicketOptionsV1 → Bytes → DropTicketV1
  unfolding of_endpoint_addr to_wire
  new_private topic_id bootstrap_nodes options drop_key = record {
    version = ticket_schema_version;
    topic_id = topic_id;
    bootstrap_nodes = map of_endpoint_addr bootstrap_nodes;
    options = options;
    mode = to_wire sealed_drop;
    drop_key = some drop_key;
  }

  unfoldable pub set_bootstrap_nodes : List EndpointAddr → DropTicketV1 → DropTicketV1
  unfolding of_endpoint_addr
  set_bootstrap_nodes nodes t = record t { bootstrap_nodes = map of_endpoint_addr nodes }

  -- `filter_map` of the conversion.
  unfoldable pub convertible : List TicketAddrV1 → List EndpointAddr
  convertible [] = []
  convertible (a ∷ nodes) =
      let rest = convertible nodes in elim (to_endpoint_addr a) [ ok e ↦ e ∷ rest | err f ↦ rest ]

  unfoldable pub bootstrap_nodes : DropTicketV1 → List EndpointAddr
  unfolding convertible
  bootstrap_nodes t = convertible t.bootstrap_nodes

  abbrev pub is_url_too_long : Option Text → Bool
  is_url_too_long none = false
  is_url_too_long (some url) = ltb max_relay_url_len (byte_len url)

  -- One round of the `for` loop of `validate`.
  unfoldable pub validate_node : TicketAddrV1 → Result TicketError (Unit {0})
  validate_node node = do
    refuse_if
        (ltb max_direct_addrs (length node.direct_v4)
          || ltb max_direct_addrs (length node.direct_v6))
        (malformed too_many_direct_addresses)
    refuse_if (is_url_too_long node.relay_url) (malformed relay_url_too_long)
    to_endpoint_addr node
    ok tt

  unfoldable pub validate_nodes : List TicketAddrV1 → Result TicketError (Unit {0})
  unfolding validate_node
  validate_nodes [] = ok tt
  validate_nodes (node ∷ nodes) = validate_node node >> validate_nodes nodes

  abbrev pub is_name_too_long : Option Text → Bool
  is_name_too_long none = false
  is_name_too_long (some name) = ltb max_display_name_len (byte_len name)

  unfoldable pub validate : DropTicketV1 → Result TicketError (Unit {0})
  unfolding from_wire validate_nodes
  validate t = do
    mode ← from_wire t.mode
    refuse_if (is_public mode && is_some t.drop_key) (malformed key_of_public_ticket)
    refuse_if (ltb max_bootstrap_nodes (length t.bootstrap_nodes))
        (too_many_bootstrap (length t.bootstrap_nodes))
    validate_nodes t.bootstrap_nodes
    refuse_if (is_name_too_long t.options.display_name) display_name_too_long

unfoldable pub without_key : DropTicketV1 → DropTicketV1
without_key t = record t { drop_key = none }

-- `mode` and `drop_key` of a ticket; a mode out of range panics, which no ticket that was decoded has.
unfoldable pub mode_of : DropTicketV1 → Option DropMode
unfolding from_wire
mode_of t = elim (from_wire t.mode) [ ok m ↦ some m | err e ↦ none ]

-- `data_encoding::BASE32_NOPAD`, whose alphabet is upper-case letters and digits.
pub record Base32 : Type 0 where
  pub encode : Bytes → Text
  pub decode : Text → Option Bytes

abbrev pub to_ascii_uppercase : Text → Text
to_ascii_uppercase [] = []
to_ascii_uppercase (c ∷ s) = (if leb 97 c && leb c 122 then c - 32 else c) ∷ to_ascii_uppercase s

unfoldable pub strip_prefix : Text → Text → Option Text
strip_prefix [] s = some s
strip_prefix (p ∷ prefix) [] = none
strip_prefix (p ∷ prefix) (c ∷ s) =
    let rest = strip_prefix prefix s in if p == c then rest else none

abbrev pub or_else : {A : Type 0} → Option A → Option A → Option A
or_else none other = other
or_else (some a) other = some a

abbrev pub ok_or : {A : Type 0} → Option A → TicketError → Result TicketError A
ok_or none e = err e
ok_or (some a) e = ok a

-- `write` and `read` are postcard's on tickets.
module _ {EndpointAddr : Type 0} (iroh : Addresses EndpointAddr) (base32 : Base32)
    (write : DropTicketV1 → Bytes) (read : Bytes → Option DropTicketV1) where
  unfoldable pub to_string_prefixed : DropTicketV1 → Text
  to_string_prefixed t = ticket_prefix ++ to_ascii_lowercase (base32.encode (write t))

  -- What follows the prefix.
  unfoldable pub decode_ticket : Text → Result TicketError DropTicketV1
  unfolding validate
  decode_ticket encoded = do
    bytes ← ok_or (base32.decode (to_ascii_uppercase encoded)) (malformed bad_base32)
    ticket ← ok_or (read bytes) (malformed bad_postcard)
    refuse_if (not (ticket.version == ticket_schema_version)) (unsupported_version ticket.version)
    validate iroh ticket
    ok ticket

  unfoldable pub from_string_prefixed : Text → Result TicketError DropTicketV1
  unfolding strip_prefix decode_ticket
  from_string_prefixed text =
      let s = trim_end (trim_start text) in
      if ltb max_ticket_len (byte_len s)
      then err (too_long (byte_len s))
      else (ok_or (or_else (strip_prefix ticket_prefix s) (strip_prefix legacy_ticket_prefix s))
            bad_prefix
          >>= decode_ticket)
