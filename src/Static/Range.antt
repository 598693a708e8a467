-- ===== src/Static/Range.antt =====
-- `parse_single_range` of src/static_files.rs. The size of the file is a `u64`.
use elrond.Base.{
  ℕ, ◌-◌, ◌≤◌, ◌<◌, min, ◌||◌, Option, none, some, arith, ltb, leb, ◌==◌, if◌then◌else◌, All-of,
  ◌>>=?◌, if-intro, is_empty, any, Text, codes, parse_below, trim, split_once, strip_prefix,
}

-- the message-free `None` of each failed test; `contains` is `any`
unfoldable pub range_of : Text → Text → ℕ → Option (ℕ × ℕ)
unfolding parse_below
range_of a b size =
    if size == 0
    then none
    else if is_empty a
    then (parse_below 18446744073709551616 b >>=? λ n.
        if n == 0 then none else some (size - min n size, size - 1))
    else if is_empty b
    then (parse_below 18446744073709551616 a >>=? λ start.
        if leb size start then none else some (start, size - 1))
    else (parse_below 18446744073709551616 a >>=? λ start.
        parse_below 18446744073709551616 b >>=? λ end.
        if ltb end start || leb size start then none else some (start, min end (size - 1)))

-- behind `bytes=`; several ranges are not supported
unfoldable pub single_of : ℕ → Text → Option (ℕ × ℕ)
unfolding split_once trim range_of
single_of size rest =
    if any (λ c. c == b',') rest
    then none
    else split_once b'-' rest >>=? λ ab. range_of (trim ab.0) (trim ab.1) size

unfoldable pub parse_single_range : Text → ℕ → Option (ℕ × ℕ)
unfolding strip_prefix single_of
parse_single_range raw size = strip_prefix raw (codes "bytes=") >>=? λ rest. single_of size rest

-- an inclusive range of a file
abbrev pub IsWithin : ℕ → ℕ × ℕ → Type 0
IsWithin size r = (r.0 ≤ r.1) × (r.1 < size)

>>=?-All-of {κ} :
    {A B : Type 0} (P : B → Type κ) (o : Option A) (f : A → Option B)
    → ((a : A) → All-of (f a) P)
    → All-of (o >>=? f) P
>>=?-All-of P none f h = tt
>>=?-All-of P (some a) f h = h a

range_of-IsWithin : (a b : Text) (size : ℕ) → All-of (range_of a b size) (IsWithin size)
unfolding range_of
range_of-IsWithin a b size =
    let G : Option (ℕ × ℕ) → Type 0 = λ o. All-of o (IsWithin size) in
    if-intro G (size == 0) none _ (λ _. tt)
      (λ some_bytes.
        if-intro G (is_empty a) _ _
          (λ _.
            >>=?-All-of (IsWithin size) (parse_below 18446744073709551616 b) _
              (λ n. if-intro G (n == 0) none _ (λ _. tt) (λ h. (ground arith, ground arith))))
          (λ _.
            if-intro G (is_empty b) _ _
              (λ _. >>=?-All-of (IsWithin size) (parse_below 18446744073709551616 a) _ (λ start.
                if-intro G (leb size start) none _ (λ _. tt) (λ h. (ground arith, ground arith))))
              (λ _. >>=?-All-of (IsWithin size) (parse_below 18446744073709551616 a) _ (λ start.
                >>=?-All-of (IsWithin size) (parse_below 18446744073709551616 b) _ (λ end.
                  if-intro G (ltb end start || leb size start) none _ (λ _. tt)
                    (λ h. (ground arith, ground arith)))))))

single_of-IsWithin : (rest : Text) (size : ℕ) → All-of (single_of size rest) (IsWithin size)
unfolding single_of
single_of-IsWithin rest size =
    if-intro (λ o. All-of o (IsWithin size)) (any (λ c. c == b',') rest) none _ (λ _. tt)
      (λ _.
        >>=?-All-of (IsWithin size) (split_once b'-' rest) _
          (λ ab. range_of-IsWithin (trim ab.0) (trim ab.1) size))

-- A range that is accepted is not empty and lies within the file, whatever the header says.
pub parse_single_range-IsWithin :
    (raw : Text) (size : ℕ) → All-of (parse_single_range raw size) (IsWithin size)
unfolding parse_single_range
parse_single_range-IsWithin raw size =
    >>=?-All-of (IsWithin size) (strip_prefix raw (codes "bytes=")) _
      (λ rest. single_of-IsWithin rest size)
