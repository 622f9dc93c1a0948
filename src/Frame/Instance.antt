-- ===== src/Frame/Instance.antt =====
-- Formats and keys that have the laws, for the tests: they show that the laws can hold.
use iroh_drop.Prelude.{
  ℕ, zero, suc, ◌+◌, ◌*◌, ◌/◌, ◌%◌, ◌≡◌, refl, [], ◌∷◌, ◌++◌, take, length, length-append,
  length-take, arith, ◌==◌, if◌then◌else◌,
}
use iroh_drop.Text.{Bytes, text_eq, text_eq_refl}
use iroh_drop.Message.{
  SignedMessageV1, MessageV1, BodyEnvelopeV1, OfferV1, ProviderV1, ProviderState, available,
  withdrawing, RequestV1, ExtensionV1,
}
use iroh_drop.Seal.{be_bytes}
use iroh_drop.Serial.{Serial, number, both, list, option, as_other, format, read-write, put_each}
use iroh_drop.Frame.{Postcard, Ed25519}
use iroh_drop.Frame.Laws.{IsFormat, IsPostcard, IsSecret}

unfoldable numbers : Serial Bytes
unfolding list number
numbers = list number

unfoldable frames : Serial SignedMessageV1
unfolding as_other both numbers
frames =
    as_other (λ f. (f.author, (f.signature, f.payload)))
      (λ (a, (s, p)). record { author = a; signature = s; payload = p }) (λ f. refl)
      (both numbers (both numbers numbers))

unfoldable pub envelopes : Serial BodyEnvelopeV1
unfolding as_other both numbers
envelopes =
    as_other (λ b. (b.kind, b.payload)) (λ (k, p). record { kind = k; payload = p }) (λ b. refl)
      (both number numbers)

unfoldable messages : Serial MessageV1
unfolding as_other both envelopes
messages =
    as_other (λ m. (m.version, (m.id, (m.sent_at_ms, m.body))))
      (λ (v, (i, (t, b))). record { version = v; id = i; sent_at_ms = t; body = b }) (λ m. refl)
      (both number (both number (both number envelopes)))

unfoldable offers : Serial OfferV1
unfolding as_other both numbers option list
offers =
    as_other (λ o. (o.blob_hash, (o.name, (o.size, (o.media_type, (o.created_at_ms, o.metadata))))))
      (λ (h, (n, (s, (m, (c, d))))). record {
        blob_hash = h;
        name = n;
        size = s;
        media_type = m;
        created_at_ms = c;
        metadata = d;
      })
      (λ o. refl)
      (both numbers (
        both numbers (
          both number
            (both (option numbers) (both (option number) (list (both numbers numbers)))))))

abbrev state_number : ProviderState → ℕ
state_number available = 0
state_number withdrawing = 1

abbrev state_of : ℕ → ProviderState
state_of n = if n == 0 then available else withdrawing

state_of-state_number : (s : ProviderState) → state_of (state_number s) ≡ s
state_of-state_number available = refl
state_of-state_number withdrawing = refl

unfoldable providers : Serial ProviderV1
unfolding as_other both numbers option number state_of-state_number
providers =
    as_other (λ p. (p.blob_hash, (p.state, p.announced_at_ms)))
      (λ (h, (s, t)). record { blob_hash = h; state = s; announced_at_ms = t }) (λ p. refl)
      (both numbers
        (both (as_other state_number state_of state_of-state_number number) (option number)))

unfoldable requests : Serial RequestV1
unfolding as_other numbers
requests = as_other (λ r. r.blob_hash) (λ h. record { blob_hash = h }) (λ r. refl) numbers

unfoldable extensions : Serial ExtensionV1
unfolding as_other both numbers number
extensions =
    as_other (λ e. (e.namespace, (e.local_kind, (e.schema_version, e.payload))))
      (λ (n, (k, (v, p))). record {
        namespace = n;
        local_kind = k;
        schema_version = v;
        payload = p;
      })
      (λ e. refl) (both numbers (both number (both number numbers)))

unfoldable pub postcard : Postcard
unfolding format frames messages envelopes offers providers requests extensions
postcard = record {
  frames = format frames;
  messages = format messages;
  envelopes = format envelopes;
  offers = format offers;
  providers = format providers;
  requests = format requests;
  extensions = format extensions;
}

format-IsFormat : {A : Type 0} (s : Serial A) → IsFormat (format s)
format-IsFormat s = record { read-write = read-write s }

length-put_each : (b : Bytes) → length (put_each number b) ≡ length b
unfolding number
length-put_each [] = refl
length-put_each (x ∷ b) = omega (arith, length-put_each b)

pub postcard-IsPostcard : IsPostcard postcard
unfolding postcard
postcard-IsPostcard = record {
  frames = format-IsFormat frames;
  messages = format-IsFormat messages;
  envelopes = format-IsFormat envelopes;
  offers = format-IsFormat offers;
  providers = format-IsFormat providers;
  requests = format-IsFormat requests;
  extensions = format-IsFormat extensions;
  payload-le = λ a s p. omega (
    arith,
    length-put_each p,
    length-append (length a ∷ put_each number a)
        ((length s ∷ put_each number s) ++ (length p ∷ put_each number p)),
    length-append (length s ∷ put_each number s) (length p ∷ put_each number p),
  );
  envelope-le = λ k p. omega (arith, length-put_each p);
}

-- A key is its own secret, and signs by the first bytes of what it signs.
unfoldable sign : Bytes → Bytes → Bytes
sign secret m = take 64 (secret ++ m ++ be_bytes 64 0)

abbrev of_be_bytes : ℕ → Bytes → ℕ
of_be_bytes acc [] = acc
of_be_bytes acc (x ∷ b) = of_be_bytes (acc * 256 + x) b

unfoldable pub ed : Ed25519
unfolding sign
ed = record {
  public_key = λ s. s;
  is_key = λ k. length k == 32;
  endpoint_id = of_be_bytes 0;
  sign = sign;
  verify = λ k m s. text_eq (sign k m) s;
}

unfoldable pub secret : Bytes
unfolding be_bytes
secret = be_bytes 32 5

pub length-be_bytes : (w n : ℕ) → length (be_bytes w n) ≡ w
unfolding be_bytes
length-be_bytes zero n = refl
length-be_bytes (suc w) n =
    omega
      (arith, length-append (be_bytes w (n / 256)) ((n % 256) ∷ []), length-be_bytes w (n / 256))

length-sign : (s m : Bytes) → length (sign s m) ≡ 64
unfolding sign
length-sign s m = omega (
  arith,
  length-take 64 (s ++ m ++ be_bytes 64 0),
  length-append s (m ++ be_bytes 64 0),
  length-append (s ++ m) (be_bytes 64 0),
  length-append m (be_bytes 64 0),
  length-be_bytes 64 0,
)

pub secret-IsSecret : IsSecret ed secret
unfolding ed secret be_bytes
secret-IsSecret = record {
  is_key = refl;
  length-sign = length-sign secret;
  verify-sign = λ m. text_eq_refl (sign secret m);
  as_bytes = refl;
}
