-- ===== src/LineEditor/Line.antt =====
-- What the loops of client/src/input_window.c over the bytes of a message make of the line.
use irc_client_server.Base.{
  ℕ, zero, suc, ◌+◌, ◌<◌, lt→ltb, ◌==◌, ==_iff, Bool-cases, if◌then◌else◌, inl, inr, ◌≡◌, ◌≢◌, refl,
  sym, ap, ◌∙◌, List, [], ◌∷◌, ◌++◌, append_assoc, length, set, get_or, length-append, All, arith,
}
use irc_client_server.Text.{Text, max_chars}
use irc_client_server.Message.{Message, string_of, set_message_char}
use irc_client_server.LineEditor.{move_up, shift_down}

set-middle : (xs ys : List ℕ) (z v : ℕ) → set (xs ++ (z ∷ ys)) (length xs) v ≡ xs ++ (v ∷ ys)
set-middle [] ys z v = refl
set-middle (x ∷ xs) ys z v = ap (◌∷◌ x) (set-middle xs ys z v)

get_or-middle : (xs ys : List ℕ) (z d : ℕ) → get_or (xs ++ (z ∷ ys)) (length xs) d ≡ z
get_or-middle [] ys z d = refl
get_or-middle (x ∷ xs) ys z d = get_or-middle xs ys z d

pub set-at :
    (xs ys : List ℕ) (z v i : ℕ) → i ≡ length xs → set (xs ++ (z ∷ ys)) i v ≡ xs ++ (v ∷ ys)
set-at xs ys z v i e = ap (λ i. set (xs ++ (z ∷ ys)) i v) e ∙ set-middle xs ys z v

pub get_or-at : (xs ys : List ℕ) (z d i : ℕ) → i ≡ length xs → get_or (xs ++ (z ∷ ys)) i d ≡ z
get_or-at xs ys z d i e = ap (λ i. get_or (xs ++ (z ∷ ys)) i d) e ∙ get_or-middle xs ys z d

-- The first byte of a text, or the byte behind it.
abbrev pub head_or : Text → ℕ → ℕ
head_or [] z = z
head_or (x ∷ xs) z = x

head_or-snoc : (xs : Text) (y z : ℕ) → head_or (xs ++ (y ∷ [])) z ≡ head_or xs y
head_or-snoc [] y z = refl
head_or-snoc (x ∷ xs) y z = refl

-- A text that is not empty, by its last byte.
snoc :
    (n : ℕ) (xs : Text)
    → length xs ≡ suc n
    → (ys : Text) × (y : ℕ) × (xs ≡ ys ++ (y ∷ [])) × (length ys ≡ n)
snoc n [] h = absurd (omega arith)
snoc zero (x ∷ []) h = ([], x, refl, refl)
snoc zero (x ∷ y ∷ xs) h = absurd (omega arith)
snoc (suc n) (x ∷ []) h = absurd (omega arith)
snoc (suc n) (x ∷ y ∷ xs) h =
    let r = snoc n (y ∷ xs) (omega arith) in (x ∷ r.0, r.1, ap (◌∷◌ x) r.2, omega (arith, r.3))

-- A byte that is written within the array.
pub set_message_char-content :
    (m : Message) (ch i : ℕ)
    → i < max_chars + 1
    → (set_message_char m ch i).content ≡ set m.content i ch
unfolding set_message_char
set_message_char-content m ch i h =
    ap (λ b. (if b then record m { content = set m.content i ch } else m).content)
      (lt→ltb i (max_chars + 1) h)

-- One round: the last byte is copied over the byte behind it.
move_up-round :
    (at n : ℕ) (m : Message) (left ys : Text) (y z : ℕ) (rest : List ℕ)
    → length left ≡ at
    → length ys ≡ n
    → at + suc n < max_chars + 1
    → m.content ≡ left ++ ((ys ++ (y ∷ [])) ++ (z ∷ rest))
    → (set_message_char m (get_or m.content (at + n) 0) (at + n + 1)).content
      ≡ left ++ (ys ++ (y ∷ y ∷ rest))
move_up-round at n m left ys y z rest hl hy room e =
    set_message_char-content m (get_or m.content (at + n) 0) (at + n + 1) (omega arith)
    ∙ ap (λ v. set m.content (at + n + 1) v) read
    ∙ ap (λ bytes. set bytes (at + n + 1) y) shape
    ∙ set-at ((left ++ ys) ++ (y ∷ [])) rest z y (at + n + 1) end_is
    ∙ append_assoc (left ++ ys) (y ∷ []) (y ∷ rest)
    ∙ append_assoc left ys (y ∷ y ∷ rest)
  where
    before : m.content ≡ (left ++ ys) ++ (y ∷ z ∷ rest)
    before =
        e
        ∙ ap (λ t. left ++ t) (append_assoc ys (y ∷ []) (z ∷ rest))
        ∙ sym (append_assoc left ys (y ∷ z ∷ rest))

    shape : m.content ≡ ((left ++ ys) ++ (y ∷ [])) ++ (z ∷ rest)
    shape = before ∙ sym (append_assoc (left ++ ys) (y ∷ []) (z ∷ rest))

    read : get_or m.content (at + n) 0 ≡ y
    read =
        ap (λ bytes. get_or bytes (at + n) 0) before
        ∙ get_or-at (left ++ ys) (z ∷ rest) y 0 (at + n) (omega (arith, length-append left ys))

    end_is : at + n + 1 ≡ length ((left ++ ys) ++ (y ∷ []))
    end_is = omega (arith, length-append (left ++ ys) (y ∷ []), length-append left ys)

-- The bytes move up by one and leave the first of them where it was.
pub move_up_lem :
    (n at : ℕ) (m : Message) (left right : Text) (z : ℕ) (rest : List ℕ)
    → length left ≡ at
    → length right ≡ n
    → at + n < max_chars + 1
    → m.content ≡ left ++ (right ++ (z ∷ rest))
    → (move_up n at m).content ≡ left ++ (head_or right z ∷ (right ++ rest))
unfolding move_up
move_up_lem zero at m left [] z rest hl hr room e = e
move_up_lem zero at m left (r ∷ right) z rest hl hr room e = absurd (omega arith)
move_up_lem (suc n) at m left right z rest hl hr room e =
    let (ys, y, parts, ly) = snoc n right hr in
    let round =
      move_up-round at n m left ys y z rest hl ly room
        (e ∙ ap (λ t. left ++ (t ++ (z ∷ rest))) parts) in
    move_up_lem n at (set_message_char m (get_or m.content (at + n) 0) (at + n + 1)) left ys y
      (y ∷ rest) hl ly (omega arith) round
    ∙ ap (λ t. left ++ t)
        (ap (λ h. h ∷ (ys ++ (y ∷ rest))) (sym (head_or-snoc ys y z))
          ∙ ap (λ t. head_or (ys ++ (y ∷ [])) z ∷ t) (sym (append_assoc ys (y ∷ []) rest))
          ∙ ap (λ t. head_or t z ∷ (t ++ rest)) (sym parts))

-- The bytes behind a position move down by one; the last one stays as well.
pub shift_down_lem :
    (tail left : List ℕ) (x start : ℕ)
    → length left ≡ start
    → (last : ℕ) × (shift_down (length tail) start (start + 1) (left ++ (x ∷ tail))
        ≡ left ++ (tail ++ (last ∷ [])))
unfolding shift_down
shift_down_lem [] left x start h = (x, refl)
shift_down_lem (t ∷ tail) left x start h =
    let (last, e) =
      shift_down_lem tail (left ++ (t ∷ [])) t (start + 1)
        (omega (arith, length-append left (t ∷ []))) in
    (
      last,
      ap
            (λ v.
              shift_down (length tail) (start + 1) (start + 1 + 1)
                (set (left ++ (x ∷ t ∷ tail)) start v))
            read
          ∙ ap (shift_down (length tail) (start + 1) (start + 1 + 1)) written
          ∙ e
          ∙ append_assoc left (t ∷ []) (tail ++ (last ∷ [])),
    )
  where
    read : get_or (left ++ (x ∷ t ∷ tail)) (start + 1) 0 ≡ t
    read =
        ap (λ bytes. get_or bytes (start + 1) 0) (sym (append_assoc left (x ∷ []) (t ∷ tail)))
        ∙ get_or-at (left ++ (x ∷ [])) tail t 0 (start + 1)
            (omega (arith, length-append left (x ∷ [])))

    written : set (left ++ (x ∷ t ∷ tail)) start t ≡ (left ++ (t ∷ [])) ++ (t ∷ tail)
    written =
        set-at left (t ∷ tail) x t start (omega arith) ∙ sym (append_assoc left (t ∷ []) (t ∷ tail))

-- A byte that is not the NUL.
abbrev pub NotNul : ℕ → Type 0
NotNul c = c ≢ 0

pub string_of-terminated :
    (t : Text) (rest : List ℕ) → All NotNul t → string_of (t ++ (0 ∷ rest)) ≡ t
unfolding string_of
string_of-terminated [] rest h = refl
string_of-terminated (c ∷ t) rest (nc, h) = elim (Bool-cases (c == 0)) [
  | inl e ↦ absurd (nc ((==_iff c 0).0 e))
  | inr e ↦ rw e (ap (◌∷◌ c) (string_of-terminated t rest h))
]
