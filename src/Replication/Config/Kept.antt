-- ===== src/Replication/Config/Kept.antt =====
-- `_serialize_config` of app/replication.py on the lines of an existing file, read back by
-- `_parse_config`.
use pve_zfs_tool.Common.{
  ◌≡◌, refl, ap, String, Bool, true, false, Option, none, some, List, [], ◌∷◌, ◌++◌, arith, all,
  all-append, Bool-cases, ◌&&◌, if◌then◌else◌, string_eq, eq_iff, Option-cases, inl, inr,
}
use pve_zfs_tool.Common.Breaks.{
  split_lines, text_of, is_line, split_lines-end_lines, split_lines-is_line,
}
use pve_zfs_tool.Common.Words.{is_empty, strip, lstrip, rstrip}
use pve_zfs_tool.Common.Dict.{Dict, get, put, get-put, get-nil}
use pve_zfs_tool.Replication.Config.{
  Line, raw, kv, parse_line, parse_lines, read_values, parse_config, print_value, kept_lines,
  has_line, new_lines, out_lines, serialize_config, lines_of,
}
use pve_zfs_tool.Replication.Config.Written.{
  is_key, is_plain, parse_line-print_value, print_value-is_line,
}

-- names and plain values, no name twice
abbrev pub is_writable : Dict String String → Bool
is_writable [] = true
is_writable ((k, v) ∷ values) = is_key k && is_plain v && is_writable values

abbrev pub is_distinct : Dict String String → Bool
is_distinct [] = true
is_distinct ((k, v) ∷ values) = elim (get k values) [ none ↦ is_distinct values | some _ ↦ false ]

-- the lines that are no assignments stay as they are when read again
abbrev IsRead : List Line → Type 0
IsRead [] = Unit
IsRead (raw s ∷ ls) = ((parse_line s ≡ raw s) × (is_line s ≡ true)) × IsRead ls
IsRead (kv key v ∷ ls) = IsRead ls

parse_line_raw :
    (s t : String)
    → parse_line s ≡ raw t
    → is_line s ≡ true
    → (parse_line t ≡ raw t) × (is_line t ≡ true)
unfolding parse_line
parse_line_raw s t h k = ground arith

line-IsRead :
    (s : String) (l : Line) (ls : List Line)
    → parse_line s ≡ l
    → is_line s ≡ true
    → IsRead ls
    → IsRead (l ∷ ls)
line-IsRead s (raw t) ls h k r = (parse_line_raw s t h k, r)
line-IsRead s (kv key v) ls h k r = r

parse_lines-IsRead : (text : List String) → all is_line text ≡ true → IsRead (parse_lines text)
unfolding parse_lines
parse_lines-IsRead [] h = tt
parse_lines-IsRead (s ∷ text) h =
    line-IsRead s (parse_line s) (parse_lines text) refl (ground arith)
      (parse_lines-IsRead text (ground arith))

no_values : read_values (parse_lines (split_lines "\n")) [] ≡ read_values (parse_lines []) []
unfolding read_values parse_lines split_lines parse_line strip lstrip rstrip
no_values = refl

-- reading one line
abbrev read_line : Line → Dict String String → Dict String String
read_line (raw s) d = d
read_line (kv key v) d = put key v d

read_values-cons :
    (l : Line) (ls : List Line) (d : Dict String String)
    → read_values (l ∷ ls) d ≡ read_values ls (read_line l d)
unfolding read_values
read_values-cons (raw s) ls d = refl
read_values-cons (kv key v) ls d = refl

read_values-append :
    (xs ys : List String) (d : Dict String String)
    → read_values (parse_lines (xs ++ ys)) d
      ≡ read_values (parse_lines ys) (read_values (parse_lines xs) d)
unfolding parse_lines read_values
read_values-append [] ys d = refl
read_values-append (x ∷ xs) ys d =
    rw
      (
        read_values-cons (parse_line x) (parse_lines (xs ++ ys)) d,
        read_values-cons (parse_line x) (parse_lines xs) d,
      )
      (read_values-append xs ys (read_line (parse_line x) d))

writable-get :
    (j v : String) (values : Dict String String)
    → is_writable values ≡ true
    → get j values ≡ some v
    → (is_key j ≡ true) × (is_plain v ≡ true)
unfolding get
writable-get j v [] w h = cc
writable-get j v ((k, u) ∷ values) w h = ground (arith, eq_iff k j, writable-get j v values)

abbrev or_else : Option String → Option String → Option String
or_else none o = o
or_else (some v) o = some v

read-print :
    (key v : String) (rest : List String) (d : Dict String String)
    → is_key key ≡ true
    → is_plain v ≡ true
    → read_values (parse_lines (print_value key v ∷ rest)) d
      ≡ read_values (parse_lines rest) (put key v d)
unfolding parse_lines read_values
read-print key v rest d h p = rw (parse_line-print_value key v h p) refl

module _ (k : String) (values : Dict String String) (w : is_writable values ≡ true) where
  kept-read :
      (ls : List Line) (d : Dict String String)
      → IsRead ls
      → get k (read_values (parse_lines (kept_lines ls values)) d)
        ≡ (if has_line k ls then or_else (get k values) (get k d) else get k d)
  unfolding kept_lines has_line parse_lines read_values
  kept-read [] d r = refl
  kept-read (raw s ∷ ls) d r = rw (r.0.0) (kept-read ls d r.1)
  kept-read (kv j old ∷ ls) d r = elim (Option-cases (get j values)) [
    | inl h ↦ ground (arith, kept-read ls d r, eq_iff j k)
    | inr (v, h) ↦ ground (
      arith,
      writable-get j v values w h,
      read-print j v (kept_lines ls values) d,
      kept-read ls (put j v d) r,
      get-put k j v d,
      eq_iff j k,
      eq_iff k j,
    )
  ]

new-read :
    (k : String) (ls : List Line) (values d : Dict String String)
    → is_writable values ≡ true
    → is_distinct values ≡ true
    → get k (read_values (parse_lines (new_lines ls values)) d)
      ≡ (if has_line k ls then get k d else or_else (get k values) (get k d))
unfolding new_lines parse_lines read_values get
new-read k ls [] d w u = ground arith
new-read k ls ((j, v) ∷ values) d w u = ground (
  arith,
  read-print j v (new_lines ls values) d,
  new-read k ls values d,
  new-read k ls values (put j v d),
  get-put k j v d,
  eq_iff j k,
  eq_iff k j,
)

kept-is_line :
    (ls : List Line) (values : Dict String String)
    → is_writable values ≡ true
    → IsRead ls
    → all is_line (kept_lines ls values) ≡ true
unfolding kept_lines
kept-is_line [] values w r = refl
kept-is_line (raw s ∷ ls) values w r = ground (arith, kept-is_line ls values w r.1)
kept-is_line (kv j old ∷ ls) values w r = elim (Option-cases (get j values)) [
  | inl h ↦ ground (arith, kept-is_line ls values w r)
  | inr (v, h) ↦
      ground
        (arith, kept-is_line ls values w r, writable-get j v values w h, print_value-is_line j v)
]

new-is_line :
    (ls : List Line) (values : Dict String String)
    → is_writable values ≡ true
    → all is_line (new_lines ls values) ≡ true
unfolding new_lines
new-is_line ls [] w = refl
new-is_line ls ((k, v) ∷ values) w = ground (arith, new-is_line ls values, print_value-is_line k v)

-- Lines without a break have the same values after they are made a text and split again.
read-text_of :
    (ls : List String)
    → all is_line ls ≡ true
    → read_values (parse_lines (split_lines (text_of ls))) [] ≡ read_values (parse_lines ls) []
unfolding text_of
read-text_of [] h = no_values
read-text_of (l ∷ ls) h =
    ap (λ xs. read_values (parse_lines xs) []) (split_lines-end_lines (l ∷ ls) h)

existing-read :
    (k : String) (values : Dict String String) (ls : List Line)
    → is_writable values ≡ true
    → is_distinct values ≡ true
    → IsRead ls
    → get k (parse_config (serialize_config values (some ls))).values ≡ get k values
unfolding parse_config serialize_config out_lines
existing-read k values ls w u r =
    let out = kept_lines ls values ++ new_lines ls values in
    let whole : all is_line out ≡ true = ground (
      arith,
      all-append is_line (kept_lines ls values) (new_lines ls values),
      kept-is_line ls values w r,
      new-is_line ls values w,
    ) in
    ground (
      arith,
      read-text_of out whole,
      read_values-append (kept_lines ls values) (new_lines ls values) [],
      new-read k ls values (read_values (parse_lines (kept_lines ls values)) []) w u,
      kept-read k values w ls [] r,
      get-nil {V = String} k,
    )

new_file-read :
    (k : String) (values : Dict String String)
    → is_writable values ≡ true
    → is_distinct values ≡ true
    → get k (parse_config (serialize_config values none)).values ≡ get k values
unfolding parse_config serialize_config out_lines has_line
new_file-read k values w u = ground (
  arith,
  read-text_of (new_lines [] values) (new-is_line [] values w),
  new-read k [] values [] w u,
  get-nil {V = String} k,
)

-- Values that are written over a file, or to a new one, are read back: those written have their
-- value, and a key that is not among them has none. It holds for keys that are names, each listed
-- once, and for values without line breaks and without the characters that are escaped.
pub parse_config-serialize_config :
    (k : String) (values : Dict String String) (existing : Option String)
    → is_writable values ≡ true
    → is_distinct values ≡ true
    → get k (parse_config (serialize_config values (lines_of existing))).values ≡ get k values
unfolding parse_config
parse_config-serialize_config k values none w u = new_file-read k values w u
parse_config-serialize_config k values (some text) w u = elim (Bool-cases (is_empty text)) [
  | inl y ↦ rw y (new_file-read k values w u)
  | inr n ↦ rw n (
      existing-read k values (parse_lines (split_lines text)) w u
        (parse_lines-IsRead (split_lines text) (split_lines-is_line text)))
]
