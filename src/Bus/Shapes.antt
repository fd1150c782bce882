-- ===== src/Bus/Shapes.antt =====
-- What the agent answers is what the client's call hands out.
use perfkit.Prelude.{
  ℕ, ◌≡◌, refl, ◌∙◌, ap, Bool, true, ◌&&◌, Option, none, some, List, [], ◌∷◌, map, arith,
}
use perfkit.Context.{Error}
use perfkit.Wire.{Bytes}
use perfkit.Agent.{Answer, answer, refused}
use perfkit.Bus.{Kind, Argument, ErrorText, TimeText, TimeTextLaw, scan_id, scan_word}
use perfkit.Bus.Decimal.{scan_int-print_int, scan_word_word}
use perfkit.Listener.{Value, done, flag, number, two_numbers, numbers, text, texts}
use perfkit.Listener.Replies.{
  reply_with, no_args, flag_args, int_args, two_ints_args, id_args, ids_args, text_args, texts_args,
  time_args, name_args, names_args, path_of, name_path,
}
use perfkit.Client.Answers
use perfkit.Client.Answers.{
  dbus_error, error_message, Finished, given, failed, garbled, lost, finish_with, read_nothing,
  read_flag, read_int, read_two_ints, read_id, read_ids, read_text, read_texts, read_time,
  read_name, read_names, or_zero, scan_names,
}
use perfkit.Bus.Sent.{is_name}

-- The types of the results.
pub data Shape : Type 0 where
  a_nothing a_flag an_int two_ints a_text some_texts a_time a_name some_names : Shape
  an_id some_ids : Kind → Shape

abbrev all_names : List Bytes → Bool
all_names [] = true
all_names (s ∷ l) = is_name s && all_names l

-- A value of a type; a name has a character, and no spaces.
pub data Fits : Shape → Value → Type 0 where
  fits_nothing : Fits a_nothing done
  fits_flag : (x : Bool) → Fits a_flag (flag x)
  fits_int : (n : ℕ) → Fits an_int (number n)
  fits_two : (m n : ℕ) → Fits two_ints (two_numbers m n)
  fits_text : (s : Option Bytes) → Fits a_text (text s)
  fits_texts : (l : Option (List Bytes)) → Fits some_texts (texts l)
  fits_time : (n : ℕ) → Fits a_time (number n)
  fits_name : (s : Bytes) → is_name s ≡ true → Fits a_name (text (some s))
  fits_names : (l : List Bytes) → all_names l ≡ true → Fits some_names (texts (some l))
  fits_id : (kind : Kind) (n : ℕ) → Fits (an_id kind) (number n)
  fits_ids : (kind : Kind) (l : List ℕ) → Fits (some_ids kind) (numbers l)

-- An answer of a type: a value of it, or a failure.
pub data Yields (s : Shape) : Answer Value → Type 0 where
  yields : (v : Value) → Fits s v → Yields s (answer v)
  stops : (e : Option Error) → Yields s (refused e)

-- What a client sees of an answer: a null string or array is empty, an error is one of the client's
-- own with the text of the agent's, and a failure without an error is none.
abbrev pub seen : Value → Value
seen (text none) = text (some [])
seen (texts none) = texts (some [])
seen v = v

abbrev pub seen_answer : ErrorText → Answer Value → Finished
seen_answer u (answer v) = given (seen v)
seen_answer u (refused (some e)) = failed (dbus_error (error_message u.failed_name (u.message e)))
seen_answer u (refused none) = lost

abbrev pub shape_args : TimeText → Shape → Value → List Argument
shape_args t a_nothing = no_args
shape_args t a_flag = flag_args
shape_args t an_int = int_args
shape_args t two_ints = two_ints_args
shape_args t a_text = text_args
shape_args t some_texts = texts_args
shape_args t a_time = time_args t
shape_args t a_name = name_args
shape_args t some_names = names_args
shape_args t (an_id kind) = id_args kind
shape_args t (some_ids kind) = ids_args kind

abbrev pub shape_read : TimeText → Shape → List Argument → Option Value
shape_read t a_nothing = read_nothing
shape_read t a_flag = read_flag
shape_read t an_int = read_int
shape_read t two_ints = read_two_ints
shape_read t a_text = read_text
shape_read t some_texts = read_texts
shape_read t a_time = read_time t
shape_read t a_name = read_name
shape_read t some_names = read_names
shape_read t (an_id kind) = read_id kind
shape_read t (some_ids kind) = read_ids kind

scan_id-path_of : (kind : Kind) (n : ℕ) → scan_id kind (path_of kind n) ≡ some n
scan_id-path_of Kind.manager n = scan_int-print_int n
scan_id-path_of Kind.channel n = scan_int-print_int n
scan_id-path_of Kind.source n = scan_int-print_int n
scan_id-path_of Kind.subscription n = scan_int-print_int n
scan_id-path_of Kind.plugin n = scan_int-print_int n
scan_id-path_of Kind.encoder n = scan_int-print_int n

ids_back :
    (kind : Kind) (l : List ℕ) → map (λ p. or_zero (scan_id kind p)) (map (path_of kind) l) ≡ l
ids_back kind [] = refl
ids_back kind (n ∷ l) =
    ap (λ x. or_zero x ∷ map (λ p. or_zero (scan_id kind p)) (map (path_of kind) l))
      (scan_id-path_of kind n)
    ∙ ap (λ x. n ∷ x) (ids_back kind l)

name_back : (s : Bytes) → is_name s ≡ true → scan_word s ≡ some s
name_back [] h = cc
name_back (c ∷ s) h = scan_word_word c s h

names_back : (l : List Bytes) → all_names l ≡ true → scan_names (map name_path l) ≡ l
names_back [] h = refl
names_back (s ∷ l) h =
    rw (name_back s (ground (arith, h))) (ap (λ x. s ∷ x) (names_back l (ground (arith, h))))

value_back :
    (t : TimeText) (law : TimeTextLaw t) (s : Shape) (v : Value)
    → Fits s v
    → shape_read t s (shape_args t s v) ≡ some (seen v)
value_back t law _ _ fits_nothing = refl
value_back t law _ _ (fits_flag x) = refl
value_back t law _ _ (fits_int n) = refl
value_back t law _ _ (fits_two m n) = refl
value_back t law _ _ (fits_text none) = refl
value_back t law _ _ (fits_text (some s)) = refl
value_back t law _ _ (fits_texts none) = refl
value_back t law _ _ (fits_texts (some l)) = refl
value_back t law _ _ (fits_time n) = ap (λ x. some (number x)) (law.back n)
value_back t law _ _ (fits_name s h) = ap (λ x. some (text x)) (name_back s h)
value_back t law _ _ (fits_names l h) = ap (λ x. some (texts (some x))) (names_back l h)
value_back t law _ _ (fits_id kind n) = ap (λ x. some (number (or_zero x))) (scan_id-path_of kind n)
value_back t law _ _ (fits_ids kind l) = ap (λ x. some (numbers x)) (ids_back kind l)

pub answer_back :
    (u : ErrorText) (t : TimeText) (law : TimeTextLaw t) (s : Shape) (x : Answer Value)
    → Yields s x
    → finish_with (shape_read t s) (reply_with u (shape_args t s) x) ≡ seen_answer u x
answer_back u t law s _ (yields v h) = ap Answers.given_of (value_back t law s v h)
answer_back u t law s _ (stops none) = refl
answer_back u t law s _ (stops (some e)) = refl
