-- ===== src/Sync/Instance.antt =====
-- A codec of the control channel that has the laws, for the tests, and the size of what it writes.
use iroh_drop.Prelude.{
  ℕ, zero, suc, ◌+◌, ◌-◌, ◌≤◌, ◌≡◌, refl, ap, Bool, true, false, Option, none, some, List, [], ◌∷◌,
  arith, length, length-append, length-take, length-drop, take, drop,
}
use iroh_drop.Text.{Bytes}
use iroh_drop.SyncLog.{SyncLog}
use iroh_drop.SyncLog.Bounds.{total}
use iroh_drop.Serial.{Serial, number, both, list, option, as_other, format, read-write, put_each}
use iroh_drop.Sync.{Codec, ControlResponseV1, SyncResponseV1}
use iroh_drop.Sync.Serving.{IsServed}
use iroh_drop.Sync.Complete.{IsCodec, page_bytes}

unfoldable numbers : Serial Bytes
unfolding list number
numbers = list number

unfoldable responses : Serial ControlResponseV1
unfolding as_other both numbers
responses =
    as_other (λ r. (r.version, (r.op, r.payload)))
      (λ (v, (o, p)). record { version = v; op = o; payload = p }) (λ r. refl)
      (both number (both number numbers))

abbrev flag : Bool → ℕ
flag true = 1
flag false = 0

abbrev flag_of : ℕ → Bool
flag_of zero = false
flag_of (suc n) = true

pub flag_of-flag : (b : Bool) → flag_of (flag b) ≡ b
flag_of-flag true = refl
flag_of-flag false = refl

unfoldable pages : Serial SyncResponseV1
unfolding as_other both numbers option list
pages =
    as_other (λ p. (p.version, (p.next_cursor, (p.oldest_cursor, (flag p.truncated, p.frames)))))
      (λ (v, (n, (o, (t, f)))). record {
        version = v;
        next_cursor = n;
        frames = f;
        oldest_cursor = o;
        truncated = flag_of t;
      })
      (λ p. ap (λ b. record p { truncated = b }) (flag_of-flag p.truncated))
      (both number (both (option number) (both number (both number (list numbers)))))

unfoldable pub codec : Codec
unfolding format responses pages
codec = record {
  take_control = λ b. none;
  take_request = λ b. none;
  take_legacy = λ b. none;
  encode_request = λ r. r.cursor ∷ r.max_frames ∷ r.topic_id;
  take_response = (format responses).read;
  take_page = (format pages).read;
  encode_response = (format responses).write;
  encode_page = (format pages).write;
}

pub codec-IsCodec : IsCodec codec
unfolding codec
codec-IsCodec = record {
  take-encode_response = read-write responses;
  take-encode_page = read-write pages;
}

total-take : (k : ℕ) (fs : List Bytes) → total (take k fs) ≤ total fs
total-take zero fs = omega arith
total-take (suc k) [] = omega arith
total-take (suc k) (f ∷ fs) = omega (arith, total-take k fs)

total-drop : (k : ℕ) (fs : List Bytes) → total (drop k fs) ≤ total fs
total-drop zero fs = omega arith
total-drop (suc k) [] = omega arith
total-drop (suc k) (f ∷ fs) = omega (arith, total-drop k fs)

length-put_number : (s : Bytes) → length (put_each number s) ≡ length s
unfolding number
length-put_number [] = refl
length-put_number (n ∷ s) = omega (arith, length-put_number s)

length-put_frames : (fs : List Bytes) → length (put_each numbers fs) ≡ length fs + total fs
unfolding numbers list
length-put_frames [] = refl
length-put_frames (f ∷ fs) = omega (
  arith,
  length-append (numbers.put f) (put_each numbers fs),
  length-put_number f,
  length-put_frames fs,
)

length-option : (o : Option ℕ) → length ((option number).put o) ≤ 2
unfolding option number
length-option none = omega arith
length-option (some n) = omega arith

-- A page of a log takes ten numbers more than the log has frames and bytes.
pub length-page_bytes :
    (cursor size : ℕ) (l : SyncLog) (r : SyncResponseV1)
    → IsServed cursor size l r
    → length (page_bytes codec r) ≤ length l.sync_log + total l.sync_log + 10
unfolding codec responses pages as_other both list numbers number format
length-page_bytes cursor size l r v =
    let k = length r.frames in
    let at = cursor - l.sync_log_start in
    let body = (list numbers).put r.frames in
    omega (
      arith,
      length-put_number ((format pages).write r),
      length-append ((option number).put r.next_cursor) (r.oldest_cursor ∷ flag r.truncated ∷ body),
      length-option r.next_cursor,
      length-put_frames r.frames,
      ap length v.frames,
      ap total v.frames,
      length-take k (drop at l.sync_log),
      length-drop at l.sync_log,
      total-take k (drop at l.sync_log),
      total-drop at l.sync_log,
    )
