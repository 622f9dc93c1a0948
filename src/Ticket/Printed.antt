-- ===== src/Ticket/Printed.antt =====
-- The printed form of a ticket.
use iroh_drop.Prelude.{
  ℕ, ◌≤◌, ◌<◌, ◌≡◌, ◌⊎◌, ◌∙◌, inl, inr, refl, ap, subst, Option-cases, Bool-cases, false, Option,
  some, List, [], ◌∷◌, ◌++◌, length, All, arith, ltb, ltb-false, if◌then◌else◌,
}
use iroh_drop.Text.{Text, Bytes, byte_len}
use iroh_drop.Error.{Result, ok, err, ◌>>=◌}
use iroh_drop.Message.{TopicId}
use iroh_drop.Hash.{is_whitespace, trim_start, trim_end, to_ascii_lowercase}
use iroh_drop.Ticket.{
  TicketError, too_many_bootstrap, too_long, Addresses, DropTicketOptionsV1, DropTicketV1, Base32,
  to_ascii_uppercase, strip_prefix, or_else, ticket_prefix, legacy_ticket_prefix,
  ticket_schema_version, max_ticket_len, max_bootstrap_nodes, new, validate, bootstrap_nodes,
  to_string_prefixed, decode_ticket, from_string_prefixed,
}
use iroh_drop.Ticket.Bounds.{IsWithin, validate_iff, validate-new_crowded, length-bootstrap_nodes}

-- An upper-case letter, or a digit of base32.
abbrev pub IsSymbol : ℕ → Type 0
IsSymbol c = ((65 ≤ c) × (c ≤ 90)) ⊎ ((50 ≤ c) × (c ≤ 55))

-- What base32 writes are symbols, and bytes are read back.
pub record IsBase32 (base32 : Base32) : Type 0 where
  pub symbols : (b : Bytes) → All (λ x. x < 256) b → All IsSymbol (base32.encode b)
  pub decode-encode : (b : Bytes) → All (λ x. x < 256) b → base32.decode (base32.encode b) ≡ some b

abbrev IsInk : ℕ → Type 0
IsInk c = is_whitespace c ≡ false

to_ascii_uppercase-to_ascii_lowercase :
    (s : Text) → All IsSymbol s → to_ascii_uppercase (to_ascii_lowercase s) ≡ s
to_ascii_uppercase-to_ascii_lowercase [] h = refl
to_ascii_uppercase-to_ascii_lowercase (c ∷ s) (inl h, hs) =
    ground (arith, to_ascii_uppercase-to_ascii_lowercase s hs)
to_ascii_uppercase-to_ascii_lowercase (c ∷ s) (inr h, hs) =
    ground (arith, to_ascii_uppercase-to_ascii_lowercase s hs)

to_ascii_lowercase-IsInk : (s : Text) → All IsSymbol s → All IsInk (to_ascii_lowercase s)
to_ascii_lowercase-IsInk [] h = tt
to_ascii_lowercase-IsInk (c ∷ s) (inl h, hs) = (ground arith, to_ascii_lowercase-IsInk s hs)
to_ascii_lowercase-IsInk (c ∷ s) (inr h, hs) = (ground arith, to_ascii_lowercase-IsInk s hs)

trim_end_ink : (s : Text) → All IsInk s → trim_end s ≡ s
trim_end_ink [] h = refl
trim_end_ink (c ∷ s) (h, hs) = rw (trim_end_ink s hs, h, trim_end) (ground arith)

trim_start_ink : (s : Text) → All IsInk s → trim_start s ≡ s
trim_start_ink [] h = refl
trim_start_ink (c ∷ s) (h, hs) = rw (h, trim_start)

trim_ink : (s : Text) → All IsInk s → trim_end (trim_start s) ≡ s
trim_ink s h = ap trim_end (trim_start_ink s h) ∙ trim_end_ink s h

module _ {EndpointAddr : Type 0} (iroh : Addresses EndpointAddr) (base32 : Base32)
    (write : DropTicketV1 → Bytes) (read : Bytes → Option DropTicketV1) where
  -- Without white space in it, a text is parsed by what follows its prefix, which may be the old one.
  from_string_prefixed-prefix :
      (s : Text)
      → All IsInk s
      → from_string_prefixed iroh base32 write read (ticket_prefix ++ s) ≡ (
          if ltb max_ticket_len (byte_len (ticket_prefix ++ s))
          then err (too_long (byte_len (ticket_prefix ++ s)))
          else decode_ticket iroh base32 write read s)
  unfolding from_string_prefixed strip_prefix
  from_string_prefixed-prefix s h =
      rw (trim_ink (ticket_prefix ++ s) (refl, (refl, (refl, (refl, (refl, h))))))

  -- Behind the old prefix a text without white space is parsed as behind the current one, whatever it holds.
  pub from_string_prefixed-legacy :
      (s : Text)
      → All IsInk s
      → from_string_prefixed iroh base32 write read (legacy_ticket_prefix ++ s)
        ≡ from_string_prefixed iroh base32 write read (ticket_prefix ++ s)
  unfolding from_string_prefixed strip_prefix
  from_string_prefixed-legacy s h = rw (
    trim_ink (ticket_prefix ++ s) (refl, (refl, (refl, (refl, (refl, h))))),
    trim_ink (legacy_ticket_prefix ++ s) (refl, (refl, (refl, (refl, (refl, h))))),
  )

  decode_ticket_ok :
      (encoded : Text) (t : DropTicketV1)
      → decode_ticket iroh base32 write read encoded ≡ ok t
      → (t.version ≡ ticket_schema_version) × (validate iroh t ≡ ok tt)
  unfolding decode_ticket
  decode_ticket_ok encoded t h = elim (Option-cases (base32.decode (to_ascii_uppercase encoded))) [
    | inl bad ↦ absurd (ground arith)
    | inr (bytes, decoded) ↦ elim (Option-cases (read bytes)) [
      | inl bad ↦ absurd (ground arith)
      | inr (u, read_lem) ↦ by_result bytes decoded u read_lem (validate iroh u) refl
    ]
  ]
    where
      by_result :
          (bytes : Bytes)
          → base32.decode (to_ascii_uppercase encoded) ≡ some bytes
          → (u : DropTicketV1) → read bytes ≡ some u
          → (r : Result TicketError (Unit {0})) → validate iroh u ≡ r
          → (t.version ≡ ticket_schema_version) × (validate iroh t ≡ ok tt)
      by_result bytes decoded u read_lem (err e) p = absurd (ground arith)
      by_result bytes decoded u read_lem (ok x) p =
          let same : u ≡ t = ground arith in
          (
            subst (λ (k : DropTicketV1). k.version ≡ ticket_schema_version) same (ground arith),
            subst (λ k. validate iroh k ≡ ok tt) same p,
          )

  -- A text that is parsed is a ticket of schema 3 within the bounds, and none of its nodes is lost when they
  -- are read for dialing.
  pub from_string_prefixed-IsWithin :
      (text : Text) (t : DropTicketV1)
      → from_string_prefixed iroh base32 write read text ≡ ok t
      → (t.version ≡ ticket_schema_version)
        × IsWithin iroh t
        × (length (bootstrap_nodes iroh t) ≡ length t.bootstrap_nodes)
  unfolding from_string_prefixed
  from_string_prefixed-IsWithin text t h =
      elim (Bool-cases (ltb max_ticket_len (byte_len (trim_end (trim_start text))))) [
        | inl long ↦ absurd (ground arith)
        | inr short ↦ elim (Option-cases (stripped)) [
          | inl bad ↦ absurd (ground arith)
          | inr (encoded, e) ↦
              let (version, valid) = decode_ticket_ok encoded t (ground arith) in
              (version, (validate_iff iroh t).0 valid, length-bootstrap_nodes iroh t valid)
        ]
      ]
    where
      stripped : Option Text
      stripped =
          or_else (strip_prefix ticket_prefix (trim_end (trim_start text)))
            (strip_prefix legacy_ticket_prefix (trim_end (trim_start text)))

  module _ (digits : IsBase32 base32) where
    version-new :
        (topic : TopicId) (nodes : List EndpointAddr) (options : DropTicketOptionsV1)
        → (new iroh topic nodes options).version ≡ ticket_schema_version
    unfolding new
    version-new topic nodes options = refl

    decode_ticket-write :
        (t : DropTicketV1)
        → All (λ x. x < 256) (write t)
        → read (write t) ≡ some t
        → t.version ≡ ticket_schema_version
        → decode_ticket iroh base32 write read (to_ascii_lowercase (base32.encode (write t)))
          ≡ (validate iroh t >>= λ u. ok t)
    unfolding decode_ticket
    decode_ticket-write t bytes e v =
        rw
          (
            to_ascii_uppercase-to_ascii_lowercase (base32.encode (write t))
                (digits.symbols (write t) bytes),
            digits.decode-encode (write t) bytes,
            e,
          )
          (ground arith)

    -- What is printed is parsed, if it is short enough, to the ticket itself or to the error of its
    -- validation.
    pub from_string_prefixed-to_string_prefixed :
        (t : DropTicketV1)
        → All (λ x. x < 256) (write t)
        → read (write t) ≡ some t
        → t.version ≡ ticket_schema_version
        → byte_len (to_string_prefixed iroh base32 write read t) ≤ max_ticket_len
        → from_string_prefixed iroh base32 write read (to_string_prefixed iroh base32 write read t)
          ≡ (validate iroh t >>= λ u. ok t)
    unfolding to_string_prefixed
    from_string_prefixed-to_string_prefixed t bytes e v short =
        let body = to_ascii_lowercase (base32.encode (write t)) in
        from_string_prefixed-prefix body
          (to_ascii_lowercase-IsInk (base32.encode (write t)) (digits.symbols (write t) bytes))
        ∙ rw (ltb-false max_ticket_len (byte_len (ticket_prefix ++ body)) short)
            (decode_ticket-write t bytes e v)

    -- A public ticket with more than 16 nodes can be printed, and what is printed is refused, if it is short
    -- enough to be read at all.
    pub from_string_prefixed-new_crowded :
        (topic : TopicId) (nodes : List EndpointAddr) (options : DropTicketOptionsV1)
        → max_bootstrap_nodes < length nodes
        → All (λ x. x < 256) (write (new iroh topic nodes options))
        → read (write (new iroh topic nodes options)) ≡ some (new iroh topic nodes options)
        → byte_len (to_string_prefixed iroh base32 write read (new iroh topic nodes options))
          ≤ max_ticket_len
        → from_string_prefixed iroh base32 write read
            (to_string_prefixed iroh base32 write read (new iroh topic nodes options))
          ≡ err (too_many_bootstrap (length nodes))
    from_string_prefixed-new_crowded topic nodes options many bytes e short =
        from_string_prefixed-to_string_prefixed (new iroh topic nodes options) bytes e
          (version-new topic nodes options) short
        ∙ rw (validate-new_crowded iroh topic nodes options many)
