-- ===== src/Redis/Tests/Format.antt =====
-- Texts that can be read back, for every type that the Redis store keeps: a number is that many `a`s
-- and a `b`, a text its length and its characters.
use Prim.Native.Char.{Char, code}
use text.Mathlib.TextBridge.{to_list, of_list, to_list-of_list, of_list-to_list}
use gfire.Prelude.{
  ℕ, zero, suc, ◌≡◌, refl, ap, String, Bool, true, false, Option, none, some, List, [], ◌∷◌, length,
  eqb, if◌then◌else◌,
}
use gfire.Prelude.Int.{ℤ, pos, negsuc}
use gfire.Job.{JobState, ServerInfo, RecurringJobEntry, ContinuationEntry}
use gfire.Redis.Codec.{Codec}

-- How a value is written in front of a rest, and read from the front.
pub record Form (A : Type 0) : Type 0 where
  pub write : A → List Char → List Char
  pub read : List Char → Option (A × List Char)
  pub law : (a : A) (rest : List Char) → read (write a rest) ≡ some (a, rest)

abbrev is_end : Char → Bool
is_end c = eqb (code c) 98

unfoldable pub write_number : ℕ → List Char → List Char
write_number zero rest = "b" ∷ rest
write_number (suc n) rest = "a" ∷ write_number n rest

abbrev next_number : Option (ℕ × List Char) → Option (ℕ × List Char)
next_number none = none
next_number (some (n, rest)) = some (suc n, rest)

unfoldable pub read_number : List Char → Option (ℕ × List Char)
read_number [] = none
read_number (c ∷ cs) =
    let more = next_number (read_number cs) in if is_end c then some (zero, cs) else more

pub number_law : (n : ℕ) (rest : List Char) → read_number (write_number n rest) ≡ some (n, rest)
unfolding write_number read_number
number_law zero rest = refl
number_law (suc n) rest = ap next_number (number_law n rest)

abbrev number : Form ℕ
number = record { write = write_number; read = read_number; law = number_law }

module _ {A B : Type 0} (f : Form A) (g : Form B) where
  abbrev second : A → Option (B × List Char) → Option ((A × B) × List Char)
  second a none = none
  second a (some (b, rest)) = some ((a, b), rest)

  abbrev first : Option (A × List Char) → Option ((A × B) × List Char)
  first none = none
  first (some (a, rest)) = second a (g.read rest)

  abbrev both : Form (A × B)
  both = record {
    write = λ p rest. f.write p.0 (g.write p.1 rest);
    read = λ cs. first (f.read cs);
    law = λ p rest. rw (f.law p.0 (g.write p.1 rest), g.law p.1 rest) refl;
  }

module _ {A B : Type 0} (f : Form A) (to : B → A) (from : A → B)
    (h : (b : B) → from (to b) ≡ b) where
  abbrev back : Option (A × List Char) → Option (B × List Char)
  back none = none
  back (some (a, rest)) = some (from a, rest)

  abbrev through : Form B
  through = record {
    write = λ b rest. f.write (to b) rest;
    read = λ cs. back (f.read cs);
    law = λ b rest. rw (f.law (to b) rest, h b) refl;
  }

module _ {A : Type 0} (f : Form A) where
  unfoldable pub write_each : List A → List Char → List Char
  write_each [] rest = rest
  write_each (a ∷ items) rest = f.write a (write_each items rest)

  abbrev cons_read : A → Option (List A × List Char) → Option (List A × List Char)
  cons_read a none = none
  cons_read a (some (items, rest)) = some (a ∷ items, rest)

  unfoldable pub read_each : ℕ → List Char → Option (List A × List Char)
  read_each zero cs = some ([], cs)
  read_each (suc n) cs = elim (f.read cs) [
    | none ↦ none
    | some (a, rest) ↦ cons_read a (read_each n rest)
  ]

  pub each_law :
      (items : List A) (rest : List Char)
      → read_each (length items) (write_each items rest) ≡ some (items, rest)
  unfolding write_each read_each
  each_law [] rest = refl
  each_law (a ∷ items) rest =
      rw (read_each, f.law a (write_each items rest)) (ap (cons_read a) (each_law items rest))

  abbrev counted : Option (ℕ × List Char) → Option (List A × List Char)
  counted none = none
  counted (some (n, cs)) = read_each n cs

  abbrev many : Form (List A)
  many = record {
    write = λ items rest. write_number (length items) (write_each items rest);
    read = λ cs. counted (read_number cs);
    law =
        λ items rest. rw (number_law (length items) (write_each items rest)) (each_law items rest);
  }

abbrev letter : Form Char
letter = record {
  write = λ c rest. c ∷ rest;
  read = λ cs. elim cs [ [] ↦ none | c ∷ rest ↦ some (c, rest) ];
  law = λ c rest. refl;
}

abbrev string : Form String
string = through (many letter) to_list of_list of_list-to_list

abbrev bit : Bool → ℕ
bit true = 1
bit false = 0

abbrev to_bool : ℕ → Bool
to_bool zero = false
to_bool (suc n) = true

abbrev boolean : Form Bool
boolean = through number bit to_bool law
  where
    law : (b : Bool) → to_bool (bit b) ≡ b
    law true = refl
    law false = refl

module _ {A : Type 0} (f : Form A) where
  abbrev to_listed : Option A → List A
  to_listed none = []
  to_listed (some a) = a ∷ []

  abbrev from_listed : List A → Option A
  from_listed [] = none
  from_listed (a ∷ items) = some a

  pub listed_law : (o : Option A) → from_listed (to_listed o) ≡ o
  listed_law none = refl
  listed_law (some a) = refl

  abbrev optional : Form (Option A)
  optional = through (many f) to_listed from_listed listed_law

abbrev parts : ℤ → Bool × ℕ
parts (pos n) = (true, n)
parts (negsuc n) = (false, n)

abbrev from_parts : Bool × ℕ → ℤ
from_parts (true, n) = pos n
from_parts (false, n) = negsuc n

pub parts_law : (z : ℤ) → from_parts (parts z) ≡ z
parts_law (pos n) = refl
parts_law (negsuc n) = refl

abbrev integer : Form ℤ
integer = through (both boolean number) parts from_parts parts_law

abbrev state_form : Form JobState
state_form =
    through (both string (both string (both (many (both string string)) number)))
      (λ (st : JobState). (st.name, (st.reason, (st.attrs, st.created_at))))
      (λ p. record { name = p.0; reason = p.1.0; attrs = p.1.1.0; created_at = p.1.1.1 })
      (λ st. refl)

abbrev server_form : Form ServerInfo
server_form =
    through (both string (both number (both number (both integer (both (many string) string)))))
      (λ (sv : ServerInfo).
        (sv.id, (sv.started_at, (sv.last_heartbeat, (sv.worker_count, (sv.queues, sv.status))))))
      (λ p. record {
        id = p.0;
        started_at = p.1.0;
        last_heartbeat = p.1.1.0;
        worker_count = p.1.1.1.0;
        queues = p.1.1.1.1.0;
        status = p.1.1.1.1.1;
      })
      (λ sv. refl)

abbrev recurring_form : Form RecurringJobEntry
recurring_form =
    through
      (both (both string (both string (both (many number) (both string string))))
        (both (both (optional number) (optional number)) (both boolean (both number number))))
      (λ (e : RecurringJobEntry). (
        (e.id, (e.job_name, (e.args, (e.queue, e.cron_expr)))),
        ((e.last_run, e.next_run), (e.enabled, (e.created_at, e.updated_at))),
      ))
      (λ p. record {
        id = p.0.0;
        job_name = p.0.1.0;
        args = p.0.1.1.0;
        queue = p.0.1.1.1.0;
        cron_expr = p.0.1.1.1.1;
        last_run = p.1.0.0;
        next_run = p.1.0.1;
        enabled = p.1.1.0;
        created_at = p.1.1.1.0;
        updated_at = p.1.1.1.1;
      })
      (λ e. refl)

abbrev continuation_form : Form ContinuationEntry
continuation_form =
    through (both string (both (many number) (both string (both string number))))
      (λ (e : ContinuationEntry).
        (e.child_name, (e.child_args, (e.child_queue, (e.condition, e.created_at)))))
      (λ p. record {
        child_name = p.0;
        child_args = p.1.0;
        child_queue = p.1.1.0;
        condition = p.1.1.1.0;
        created_at = p.1.1.1.1;
      })
      (λ e. refl)

module _ {A : Type 0} (f : Form A) where
  unfoldable pub print : A → String
  print a = of_list (f.write a [])

  abbrev value : Option (A × List Char) → Option A
  value none = none
  value (some (a, rest)) = some a

  unfoldable pub scan : String → Option A
  scan s = value (f.read (to_list s))

  pub scan-print : (a : A) → scan (print a) ≡ some a
  unfolding print scan
  scan-print a = rw (to_list-of_list (f.write a []), f.law a []) refl

abbrev or_nil : Option (List ℕ) → List ℕ
or_nil none = []
or_nil (some b) = b

abbrev or_zero : Option ℤ → ℤ
or_zero none = pos 0
or_zero (some n) = n

pub scan_empty : scan (many number) "" ≡ none
unfolding scan read_number
scan_empty = ap (λ l. value (many number) ((many number).read l)) (to_list-of_list [])

pub nothing_scanned : scan number "" ≡ none
unfolding scan read_number
nothing_scanned = ap (λ l. value number (number.read l)) (to_list-of_list [])

-- A Codec of these texts.
unfoldable pub plain_codec : Codec
plain_codec = record {
  text = print (many number);
  bytes = λ s. or_nil (scan (many number) s);
  format = print number;
  parse = scan number;
  itoa = print integer;
  atoi = λ s. or_zero (scan integer s);
  marshal_state = print state_form;
  unmarshal_state = scan state_form;
  marshal_server = print server_form;
  unmarshal_server = scan server_form;
  marshal_recurring = print recurring_form;
  unmarshal_recurring = scan recurring_form;
  marshal_continuation = print continuation_form;
  unmarshal_continuation = scan continuation_form;
  bytes_text = λ b. ap or_nil (scan-print (many number) b);
  bytes_empty = ap or_nil scan_empty;
  parse_format = scan-print number;
  parse_empty = nothing_scanned;
  atoi_itoa = λ n. ap or_zero (scan-print integer n);
  state_law = scan-print state_form;
  server_law = scan-print server_form;
  recurring_law = scan-print recurring_form;
  continuation_law = scan-print continuation_form;
}
