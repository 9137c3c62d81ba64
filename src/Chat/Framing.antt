-- ===== src/Chat/Framing.antt =====
-- hw5/chat_server.c: how the server takes messages out of the bytes of a client. Each message stands
-- behind its length, four bytes of which the lowest comes first.
use mathlib.Core.Path.{subst}
use system_programming_hw.Base.{
  ℕ, zero, suc, ◌+◌, ◌*◌, ◌/◌, ◌%◌, ◌≤◌, ◌<◌, List, [], ◌∷◌, ◌++◌, ◌≡◌, ◌≢◌, refl, ap, ◌∙◌, arith,
  Bytes, length, take, drop, length-append, length-drop, ltb, if◌then◌else◌, append-nil,
  append_assoc, Bool, true, false, take-append_ge, drop-append_ge,
}

-- The next message with the bytes behind it, or the bytes that are left where there is none.
pub data Next : Type 0 where
  short : Bytes → Next
  found : Bytes → Bytes → Next

abbrev pub message_length : ℕ → ℕ → ℕ → ℕ → ℕ
message_length a b c d = a + 256 * b + 65536 * c + 16777216 * d

abbrev pub body : ℕ → Bytes → Next
body n rest = if ltb (length rest) n then short rest else found (take n rest) (drop n rest)

unfoldable pub next_message : Bytes → Next
next_message [] = short []
next_message (a ∷ []) = short (a ∷ [])
next_message (a ∷ b ∷ []) = short (a ∷ b ∷ [])
next_message (a ∷ b ∷ c ∷ []) = short (a ∷ b ∷ c ∷ [])
next_message (a ∷ b ∷ c ∷ d ∷ rest) = body (message_length a b c d) rest

-- The messages, and the bytes that stay in the buffer.
pub data Parsed : Type 0 where
  parsed : List Bytes → Bytes → Parsed
  out_of_fuel : Parsed

abbrev pub with_message : Bytes → Parsed → Parsed
with_message m (parsed ms rest) = parsed (m ∷ ms) rest
with_message m out_of_fuel = out_of_fuel

parse_next : (Bytes → Parsed) → Next → Parsed
parse_next again (short rest) = parsed [] rest
parse_next again (found m rest) = with_message m (again rest)

-- The loop, on fuel: one unit for each round.
unfoldable pub parse : ℕ → Bytes → Parsed
unfolding parse_next next_message
parse zero input = out_of_fuel
parse (suc fuel) input = parse_next (parse fuel) (next_message input)

abbrev pub parse_all : Bytes → Parsed
parse_all input = parse (suc (length input)) input

-- The bytes that stand for a message: its length, lowest byte first, and its bytes. No client of the
-- repository writes them; this is the form that the server reads.
abbrev pub header : ℕ → Bytes
header n = n % 256 ∷ n / 256 % 256 ∷ n / 65536 % 256 ∷ n / 16777216 % 256 ∷ []

abbrev pub frames : List Bytes → Bytes
frames [] = []
frames (m ∷ ms) = header (length m) ++ (m ++ frames ms)

-- The messages whose lengths can be written.
abbrev pub AreShort : List Bytes → Type 0
AreShort [] = Unit
AreShort (m ∷ ms) = (length m < 4294967296) × AreShort ms

length_header :
    (n : ℕ)
    → n < 4294967296
    → message_length (n % 256) (n / 256 % 256) (n / 65536 % 256) (n / 16777216 % 256) ≡ n
length_header n h = omega arith

body-found : (n : ℕ) (m rest : Bytes) → length m ≡ n → body n (m ++ rest) ≡ found m rest
body-found n m rest e =
    let taken : take n (m ++ rest) ≡ m =
      take-append_ge n 0 m rest (omega (arith, e)) ∙ append-nil m in
    let dropped : drop n (m ++ rest) ≡ rest = drop-append_ge n 0 m rest (omega (arith, e)) in
    let room : ltb (length (m ++ rest)) n ≡ false = ground (arith, length-append m rest, e) in
    rw (room, taken, dropped) refl

body-short : (n : ℕ) (part : Bytes) → length part < n → body n part ≡ short part
body-short n part h = ground (arith, h)

next_message-frame :
    (m rest : Bytes)
    → length m < 4294967296
    → next_message (header (length m) ++ (m ++ rest)) ≡ found m rest
unfolding next_message
next_message-frame m rest h =
    ap (λ (n : ℕ). body n (m ++ rest)) (length_header (length m) h)
    ∙ body-found (length m) m rest refl

-- The messages come out, and then what the bytes behind them leave.
parse-frames :
    (f : ℕ) (ms : List Bytes) (tail rest : Bytes)
    → AreShort ms
    → next_message tail ≡ short rest
    → length (frames ms ++ tail) < f
    → parse f (frames ms ++ tail) ≡ parsed ms rest
unfolding parse parse_next
parse-frames zero ms tail rest fits ends h = absurd (omega arith)
parse-frames (suc f) [] tail rest fits ends h = rw ends refl
parse-frames (suc f) (m ∷ ms) tail rest (fit, fits) ends h =
    let shape : (m ++ frames ms) ++ tail ≡ m ++ (frames ms ++ tail) =
      append_assoc m (frames ms) tail in
    rw shape (
      rw (next_message-frame m (frames ms ++ tail) fit) (
        ap (with_message m) (
          parse-frames f ms tail rest fits ends
            (omega (arith, h, ap length shape, length-append m (frames ms ++ tail))))))

dropped_le : (n : ℕ) (xs : Bytes) → length (drop n xs) ≤ length xs
dropped_le n xs = omega (arith, length-drop n xs)

abbrev Shrinks : ℕ → Next → Type 0
Shrinks n (short rest) = length rest ≤ n
Shrinks n (found m rest) = length rest < n

body-Shrinks : (n : ℕ) (b : Bytes) → Shrinks (length b + 4) (body n b)
body-Shrinks n b = by_test (ltb (length b) n)
  where
    by_test :
        (t : Bool) → Shrinks (length b + 4) (if t then short b else found (take n b) (drop n b))
    by_test true = omega arith
    by_test false = omega (arith, dropped_le n b)

next_message-Shrinks : (b : Bytes) → Shrinks (length b) (next_message b)
unfolding next_message
next_message-Shrinks [] = omega arith
next_message-Shrinks (a ∷ []) = omega arith
next_message-Shrinks (a ∷ b ∷ []) = omega arith
next_message-Shrinks (a ∷ b ∷ c ∷ []) = omega arith
next_message-Shrinks (a ∷ b ∷ c ∷ d ∷ rest) =
    subst (λ (n : ℕ). Shrinks n (body (message_length a b c d) rest)) (omega arith)
      (body-Shrinks (message_length a b c d) rest)

abbrev Ends : ℕ → Parsed → Type 0
Ends n out_of_fuel = ⊥
Ends n (parsed ms rest) = length rest ≤ n

parse_next-Ends :
    (again : Bytes → Parsed) (n : ℕ) (r : Next)
    → Shrinks n r
    → ((b : Bytes) → length b < n → Ends (length b) (again b))
    → Ends n (parse_next again r)
unfolding parse_next
parse_next-Ends again n (short rest) s h = s
parse_next-Ends again n (found m rest) s h = widen (again rest) (h rest s)
  where
    widen : (p : Parsed) → Ends (length rest) p → Ends n (with_message m p)
    widen (parsed ms left) e = omega arith
    widen out_of_fuel e = e

parse-Ends : (f : ℕ) (b : Bytes) → length b < f → Ends (length b) (parse f b)
unfolding parse
parse-Ends zero b h = absurd (omega arith)
parse-Ends (suc f) b h =
    parse_next-Ends (parse f) (length b) (next_message b) (next_message-Shrinks b)
      (λ c lt. parse-Ends f c (omega arith))

-- The loop over the input of a peer ends.
pub parse_all_terminates : (b : Bytes) → parse_all b ≢ out_of_fuel
parse_all_terminates b e = rw e at (parse-Ends (suc (length b)) b (omega arith))

-- Where a message is cut behind its length, the messages before it come out, but the length is
-- used up: only the bytes behind it stay.
pub parse_all-cut :
    (ms : List Bytes) (n : ℕ) (part : Bytes)
    → AreShort ms
    → n < 4294967296
    → length part < n
    → parse_all (frames ms ++ (header n ++ part)) ≡ parsed ms part
unfolding next_message
parse_all-cut ms n part fits writes cut =
    parse-frames (suc (length (frames ms ++ (header n ++ part)))) ms (header n ++ part) part fits
      (ap (λ (k : ℕ). body k part) (length_header n writes) ∙ body-short n part cut) (omega arith)
