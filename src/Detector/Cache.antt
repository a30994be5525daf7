-- ===== src/Detector/Cache.antt =====
-- internal/arduino/builder/internal/detector/cache.go: the log of what the detector did, replayed from the
-- last build. Reading and writing JSON is not modelled; `load` takes the entries that were read.
use arduino_cli_android.Prelude.{
  ℕ, zero, suc, ◌≤◌, Bool, List, [], ◌∷◌, ◌++◌, map, Option, none, some, ◌==◌, nat_eq, list_eq,
  if◌then◌else◌, length, take, drop, get_elem?, list_beq_iff, ◌≡◌, refl, ap, sym, ◌∙◌, arith,
  Bool-cases, inl, inr, map-append, append_assoc, append-nil, ap₂, length-append, Option-cases,
}
use arduino_cli_android.Strings.{Text, codes, is_empty}
use arduino_cli_android.SourceFile.{SourceFile}

-- A pointer that may be nil is an option. The task is the text that its `String` gives.
pub record Entry : Type 0 where
  pub added_include_path : Option Text
  pub compile : Option SourceFile
  pub compile_task : Option Text
  pub missing_include_h : Option Text

pub record DetectorCache : Type 0 where
  pub curr : ℕ
  pub entries : List Entry

-- A path as `fmt` prints it.
abbrev pub path_string : Option Text → Text
path_string none = codes "<nil>"
path_string (some path) = path

unfoldable pub source_file_string : SourceFile → Text
source_file_string f =
    f.source_path
    ++ (codes " -> dep:"
        ++ (path_string f.depfile_path
            ++ (codes " (ExtraInclude:" ++ (path_string f.extra_include_path ++ codes ")"))))

abbrev compile_string : Option SourceFile → Text
compile_string none = codes "<nil>"
compile_string (some f) = source_file_string f

abbrev missing_string : Option Text → Text
missing_string none = codes "No operation"
missing_string (some h) =
    if is_empty h
    then codes "No missing include files detected"
    else codes "Missing include file: " ++ h

abbrev task_string : Option SourceFile → Option Text → Option Text → Text
task_string compile none missing = missing_string missing
task_string compile (some task) missing =
    codes "Compiling: " ++ (compile_string compile ++ (codes " / " ++ task))

abbrev added_string : Option Text → Text → Text
added_string none other = other
added_string (some path) other = codes "Added include path: " ++ path

unfoldable pub entry_string : Entry → Text
entry_string e =
    added_string e.added_include_path (task_string e.compile e.compile_task e.missing_include_h)

unfoldable pub equals : Entry → Entry → Bool
equals e entry = entry_string e == entry_string entry

abbrev pub new_detector_cache : DetectorCache
new_detector_cache = record { curr = 0; entries = [] }

-- What `Load` makes of the entries that it read.
unfoldable pub load : List Entry → DetectorCache
load entries = record { curr = 0; entries = entries }

-- `Peek`; nil where every entry was used.
unfoldable pub peek : DetectorCache → Option Entry
peek c = get_elem? c.entries c.curr

unfoldable pub entries_ahead : DetectorCache → List Entry
entries_ahead c = drop c.curr c.entries

-- The entry is written after those that were used, and what was ahead is cut off.
unfoldable pub cut_and_append : DetectorCache → Entry → DetectorCache
cut_and_append c entry = record {
  curr = suc c.curr;
  entries = take c.curr c.entries ++ (entry ∷ []);
}

unfoldable pub expect : DetectorCache → Entry → DetectorCache
expect c entry = elim (peek c) [
  | some next ↦
      if equals next entry
      then record { curr = suc c.curr; entries = c.entries }
      else cut_and_append c entry
  | none ↦ record { curr = suc c.curr; entries = c.entries ++ (entry ∷ []) }
]

unfoldable pub expect_compile : DetectorCache → SourceFile → Text → DetectorCache
expect_compile c source_file task = expect c (record {
  added_include_path = none;
  compile = some source_file;
  compile_task = some task;
  missing_include_h = none;
})

unfoldable pub expect_added_include_path : DetectorCache → Text → DetectorCache
expect_added_include_path c path = expect c (record {
  added_include_path = some path;
  compile = none;
  compile_task = none;
  missing_include_h = none;
})

unfoldable pub expect_missing_include_h : DetectorCache → Text → DetectorCache
expect_missing_include_h c h = expect c (record {
  added_include_path = none;
  compile = none;
  compile_task = none;
  missing_include_h = some h;
})

-- The entries that `Save` writes.
unfoldable pub save : DetectorCache → List Entry
save c = take c.curr c.entries

abbrev pub expect_all : DetectorCache → List Entry → DetectorCache
expect_all c [] = c
expect_all c (e ∷ es) = expect_all (expect c e) es

-- The position is inside the list, and what was used reads as the log.
pub record Follows (log : List Entry) (c : DetectorCache) : Type 0 where
  pub inside : c.curr ≤ length c.entries
  pub same : map entry_string (take c.curr c.entries) ≡ map entry_string log

module _ {A : Type 0} where
  get_elem?-none : (xs : List A) (n : ℕ) → get_elem? xs n ≡ none → length xs ≤ n
  get_elem?-none [] n h = omega arith
  get_elem?-none (x ∷ xs) zero h = cc
  get_elem?-none (x ∷ xs) (suc n) h = omega (arith, get_elem?-none xs n h)

  get_elem?-some :
      (xs : List A) (n : ℕ) (x : A)
      → get_elem? xs n ≡ some x
      → (suc n ≤ length xs) × (take (suc n) xs ≡ take n xs ++ (x ∷ []))
  get_elem?-some [] n x h = cc
  get_elem?-some (y ∷ xs) zero x h = (omega arith, cc)
  get_elem?-some (y ∷ xs) (suc n) x h =
      let (le, e) = get_elem?-some xs n x h in (omega (arith, le), ap (λ (t : List A). y ∷ t) e)

  take_all : (xs : List A) (n : ℕ) → length xs ≤ n → take n xs ≡ xs
  take_all [] zero h = refl
  take_all [] (suc n) h = refl
  take_all (x ∷ xs) zero h = absurd (omega arith)
  take_all (x ∷ xs) (suc n) h = ap (λ (t : List A). x ∷ t) (take_all xs n (omega (arith, h)))

  length-snoc : (xs : List A) (x : A) → length (xs ++ (x ∷ [])) ≡ suc (length xs)
  length-snoc xs x = omega (arith, length-append xs (x ∷ []))

  length-take_eq : (n : ℕ) (xs : List A) → n ≤ length xs → length (take n xs) ≡ n
  length-take_eq zero xs h = refl
  length-take_eq (suc n) [] h = absurd (omega arith)
  length-take_eq (suc n) (x ∷ xs) h = ap suc (length-take_eq n xs (omega (arith, h)))

snoc_same :
    (used log : List Entry) (e e' : Entry)
    → map entry_string used ≡ map entry_string log
    → entry_string e ≡ entry_string e'
    → map entry_string (used ++ (e ∷ [])) ≡ map entry_string (log ++ (e' ∷ []))
snoc_same used log e e' h q =
    map-append entry_string used (e ∷ [])
    ∙ (ap₂ (λ (xs : List Text) (x : Text). xs ++ (x ∷ [])) h q
        ∙ sym (map-append entry_string log (e' ∷ [])))

-- A list with one entry more, all of it used.
Follows-all :
    (log used : List Entry) (n : ℕ) (e : Entry)
    → length used ≡ n
    → map entry_string used ≡ map entry_string log
    → Follows (log ++ (e ∷ [])) (record { curr = suc n; entries = used ++ (e ∷ []) })
Follows-all log used n e len same = record {
  inside = omega (arith, length-snoc used e, len);
  same =
      ap (map entry_string)
        (take_all (used ++ (e ∷ [])) (suc n) (omega (arith, length-snoc used e, len)))
      ∙ snoc_same used log e e same refl;
}

Follows-expect :
    (log : List Entry) (c : DetectorCache) (e : Entry)
    → Follows log c
    → Follows (log ++ (e ∷ [])) (expect c e)
unfolding expect peek cut_and_append equals
Follows-expect log c e f = elim (Option-cases (peek c)) [
  | inl none_ahead ↦
      let len : length c.entries ≡ c.curr =
        omega (arith, get_elem?-none c.entries c.curr none_ahead, f.inside) in
      let used : map entry_string c.entries ≡ map entry_string log =
        ap (map entry_string) (sym (take_all c.entries c.curr (omega (arith, len)))) ∙ f.same in
      rw (none_ahead, expect) (Follows-all log c.entries c.curr e len used)
  | inr (next, ahead) ↦ elim (Bool-cases (entry_string next == entry_string e)) [
    | inl hit ↦
        let (le, q) = get_elem?-some c.entries c.curr next ahead in
        rw (ahead, expect)
          (rw (hit, equals)
            (record {
              inside = le;
              same =
                  ap (map entry_string) q
                  ∙ snoc_same (take c.curr c.entries) log next e f.same
                      ((list_beq_iff (entry_string next) (entry_string e)).0 hit);
            }))
    | inr miss ↦
        rw (ahead, expect)
          (rw (miss, equals)
            (Follows-all log (take c.curr c.entries) c.curr e
              (length-take_eq c.curr c.entries f.inside) f.same))
  ]
]

Follows-expect_all :
    (log : List Entry) (c : DetectorCache) (es : List Entry)
    → Follows log c
    → Follows (log ++ es) (expect_all c es)
Follows-expect_all log c [] f = rw (append-nil log) f
Follows-expect_all log c (e ∷ es) f =
    rw (← append_assoc log (e ∷ []) es)
      (Follows-expect_all (log ++ (e ∷ [])) (expect c e) es (Follows-expect log c e f))

-- Whatever cache the last build left, the one that is saved tells exactly what this build did, in
-- order: the entries read as those that were expected.
pub save-expect_all :
    (old es : List Entry) → map entry_string (save (expect_all (load old) es)) ≡ map entry_string es
unfolding save load
save-expect_all old es =
    (Follows-expect_all [] (load old) es (record { inside = omega arith; same = refl })).same
