-- ===== src/External/Concrete/Codec.antt =====
-- A serialisation of task payloads as code points, with the law of `Json`.
use ai_secure_collaboration.Prelude.{
  ℕ, zero, suc, ◌≡◌, refl, Option, none, some, List, [], ◌∷◌, length, Str,
}
use ai_secure_collaboration.External.Json.{Json, Payload}

-- A writer in front of a text, and the reader that takes it off.
record Codec (A : Type 0) : Type 0 where
  write : A → Str → Str
  read : Str → Option (A × Str)
  read-write : (a : A) (rest : Str) → read (write a rest) ≡ some (a, rest)

abbrev then_read : {A B : Type 0} → Option (A × Str) → (A → Str → Option B) → Option B
then_read none f = none
then_read (some (a, rest)) f = f a rest

read_number : Str → Option (ℕ × Str)
read_number [] = none
read_number (n ∷ rest) = some (n, rest)

abbrev number : Codec ℕ
unfolding read_number
number = record { write = λ n rest. n ∷ rest; read = read_number; read-write = λ n rest. refl }

module _ {A : Type 0} (c : Codec A) where
  write_option : Option A → Str → Str
  write_option none rest = 0 ∷ rest
  write_option (some a) rest = 1 ∷ c.write a rest

  read_option : Str → Option (Option A × Str)
  read_option [] = none
  read_option (zero ∷ rest) = some (none, rest)
  read_option (suc n ∷ rest) = then_read (c.read rest) (λ a rest'. some (some a, rest'))

  option_law : (o : Option A) (rest : Str) → read_option (write_option o rest) ≡ some (o, rest)
  unfolding write_option read_option
  option_law none rest = refl
  option_law (some a) rest = rw c.read-write

  write_items : List A → Str → Str
  write_items [] rest = rest
  write_items (a ∷ as') rest = c.write a (write_items as' rest)

  read_items : ℕ → Str → Option (List A × Str)
  read_items zero rest = some ([], rest)
  read_items (suc n) rest =
      then_read (c.read rest)
        λ a rest'. then_read (read_items n rest') λ as' end. some (a ∷ as', end)

  items_law :
      (as' : List A) (rest : Str)
      → read_items (length as') (write_items as' rest) ≡ some (as', rest)
  unfolding write_items read_items
  items_law [] rest = refl
  items_law (a ∷ as') rest = rw c.read-write (rw (items_law as' rest))

  read_list : Str → Option (List A × Str)
  read_list [] = none
  read_list (n ∷ rest) = read_items n rest

abbrev option : {A : Type 0} → Codec A → Codec (Option A)
option c = record { write = write_option c; read = read_option c; read-write = option_law c }

list_law :
    {A : Type 0} (c : Codec A) (as' : List A) (rest : Str)
    → read_list c (length as' ∷ write_items c as' rest) ≡ some (as', rest)
unfolding read_list
list_law c = items_law c

abbrev list : {A : Type 0} → Codec A → Codec (List A)
list c = record {
  write = λ as' rest. length as' ∷ write_items c as' rest;
  read = read_list c;
  read-write = list_law c;
}

module _ {A B : Type 0} (c : Codec A) (d : Codec B) where
  read_pair : Str → Option ((A × B) × Str)
  read_pair s = then_read (c.read s) λ a rest. then_read (d.read rest) λ b end. some ((a, b), end)

  pair_law : (p : A × B) (rest : Str) → read_pair (c.write p.0 (d.write p.1 rest)) ≡ some (p, rest)
  unfolding read_pair
  pair_law (a, b) rest = rw c.read-write (rw d.read-write)

abbrev pair : {A B : Type 0} → Codec A → Codec B → Codec (A × B)
pair c d = record {
  write = λ p rest. c.write p.0 (d.write p.1 rest);
  read = read_pair c d;
  read-write = pair_law c d;
}

abbrev text : Codec Str
text = list number

-- The fields of a payload.
abbrev Fields : Type 0
Fields =
    (Option Str × Option Str)
    × ((Option (List Str) × Option (List (Str × Str)))
        × ((Option ℕ × Option ℕ) × (Option ℕ × Option Str)))

abbrev fields : Codec Fields
fields = pair (pair (option text) (option text)) (
    pair (pair (option (list text)) (option (list (pair text text))))
      (pair (pair (option number) (option number)) (pair (option number) (option text))))

of_payload : Payload → Fields
of_payload p = (
  (p.task_id, p.name),
  ((p.args, p.kwargs), ((p.retry_count, p.max_retries), (p.dlq_timestamp, p.dlq_reason))),
)

to_payload : Option (Fields × Str) → Option Payload
to_payload none = none
to_payload (some (((i, n), ((a, k), ((r, m), (t, e)))), rest)) = some (record {
  task_id = i;
  name = n;
  args = a;
  kwargs = k;
  retry_count = r;
  max_retries = m;
  dlq_timestamp = t;
  dlq_reason = e;
})

codec_law : (p : Payload) → to_payload (fields.read (fields.write (of_payload p) [])) ≡ some p
unfolding of_payload to_payload
codec_law p = rw (fields.read-write (of_payload p) [])

pub codec_json : Json
codec_json = record {
  dumps = λ p. fields.write (of_payload p) [];
  loads = λ s. to_payload (fields.read s);
  loads-dumps = codec_law;
}
