-- ===== src/AuditLog/Lines.antt =====
-- What a reader of the log file of launcher/xlpod-server/src/audit.rs finds in it, line by line.
use xlpod.Common.{
  ℕ, zero, suc, ◌<◌, ◌≤◌, ◌≡◌, refl, sym, ap, ◌∙◌, ◌⊎◌, inl, inr, false, List, [], ◌∷◌, ◌++◌, All,
  none, some, if◌then◌else◌, nat_beq, leb, length, arith, Bool-cases, Option-cases,
}
use xlpod.Json.{Value, Json}
use xlpod.System.{AuditEntry}
use xlpod.AuditLog.{take, LogHost, LogFile, audit_value, write_line, write_entry, write_entries}
use mathlib.Core.List.{append_assoc, append-nil}

-- The lines that have ended, and the bytes after the last of them.
pub record Split : Type 0 where
  pub ended : List (List ℕ)
  pub rest : List ℕ

abbrev put : ℕ → Split → Split
put b s = elim s.ended [
  | [] ↦ record s { rest = b ∷ s.rest }
  | l ∷ ls ↦ record s { ended = (b ∷ l) ∷ ls }
]

-- A reader's view of a file: it is cut at its line feeds.
unfoldable pub split_lines : List ℕ → Split
split_lines [] = record { ended = []; rest = [] }
split_lines (b ∷ bs) =
    let s = split_lines bs in if nat_beq b 10 then record s { ended = [] ∷ s.ended } else put b s

-- Bytes without a line feed.
abbrev pub Unbroken : List ℕ → Type 0
Unbroken = All (λ b. nat_beq b 10 ≡ false)

-- Bytes without a line feed go on with the line that is under way.
abbrev begun : List ℕ → Split → Split
begun xs s = elim s.ended [
  | [] ↦ record s { rest = xs ++ s.rest }
  | l ∷ ls ↦ record s { ended = (xs ++ l) ∷ ls }
]

begun_nil : (s : Split) → begun [] s ≡ s
begun_nil s = go s.ended s.rest
  where
    go :
        (ls : List (List ℕ)) (r : List ℕ)
        → begun [] (record { ended = ls; rest = r }) ≡ record { ended = ls; rest = r }
    go [] r = refl
    go (l ∷ ls) r = refl

put-begun : (b : ℕ) (xs : List ℕ) (s : Split) → put b (begun xs s) ≡ begun (b ∷ xs) s
put-begun b xs s = go s.ended s.rest
  where
    go :
        (ls : List (List ℕ)) (r : List ℕ)
        → put b (begun xs (record { ended = ls; rest = r }))
          ≡ begun (b ∷ xs) (record { ended = ls; rest = r })
    go [] r = refl
    go (l ∷ ls) r = refl

-- Such bytes in front of any text.
split_begun : (xs bs : List ℕ) → Unbroken xs → split_lines (xs ++ bs) ≡ begun xs (split_lines bs)
unfolding split_lines
split_begun [] bs u = sym (begun_nil (split_lines bs))
split_begun (b ∷ xs) bs (e, u) = rw (e, split_begun xs bs u) (put-begun b xs (split_lines bs))

-- A line in front of any text.
split_line :
    (line bs : List ℕ)
    → Unbroken line
    → split_lines (line ++ 10 ∷ bs)
      ≡ record { ended = line ∷ (split_lines bs).ended; rest = (split_lines bs).rest }
unfolding split_lines
split_line line bs u = split_begun line (10 ∷ bs) u ∙ rw (append-nil line) refl

take_all : {A : Type 0} (n : ℕ) (xs : List A) → length xs ≤ n → take n xs ≡ xs
take_all zero [] h = refl
take_all (suc n) [] h = refl
take_all zero (x ∷ xs) h = absurd (omega arith)
take_all (suc n) (x ∷ xs) h = ap (λ l. x ∷ l) (take_all n xs (omega arith))

by_size : (a b : ℕ) → (a ≤ b) ⊎ (b < a)
by_size a b = elim (Bool-cases (leb a b)) [
  | inl e ↦ inl (ground (arith, e))
  | inr e ↦ inr (ground (arith, e))
]

-- A part of a line that lacks at least its end is a part of its text.
take_front :
    {A : Type 0} (n : ℕ) (xs : List A) (a : A)
    → n < length (xs ++ a ∷ [])
    → take n (xs ++ a ∷ []) ≡ take n xs
take_front zero xs a h = refl
take_front (suc n) [] a h = absurd (omega arith)
take_front (suc n) (x ∷ xs) a h = ap (λ l. x ∷ l) (take_front n xs a (omega arith))

Unbroken-take : (n : ℕ) (xs : List ℕ) → Unbroken xs → Unbroken (take n xs)
Unbroken-take zero xs u = tt
Unbroken-take (suc n) [] u = tt
Unbroken-take (suc n) (x ∷ xs) (e, u) = (e, Unbroken-take n xs u)

-- What is in the file from the `n`-th write on, behind the bytes of a line that is under way: which
-- lines a reader finds, and what is left at the end. A line that is written in full ends the line
-- that is under way, and one that is torn only makes it longer.
pub data Logged (json : Json) (host : LogHost)
    : ℕ → List ℕ → List AuditEntry → List (List ℕ) → List ℕ → Type 0 where
  nothing : {n : ℕ} {started : List ℕ} → Logged json host n started [] [] started
  skipped :
      {n : ℕ} {started rest : List ℕ} {entry : AuditEntry} {more : List AuditEntry}
      {ls : List (List ℕ)}
      → host.to_vec (audit_value json host entry) ≡ none
      → Logged json host n started more ls rest
      → Logged json host n started (entry ∷ more) ls rest
  torn :
      {n : ℕ} {started rest : List ℕ} {entry : AuditEntry} {more : List AuditEntry}
      {ls : List (List ℕ)} (line : List ℕ)
      → host.to_vec (audit_value json host entry) ≡ some line
      → host.write_all (line ++ 10 ∷ []) n < length (line ++ 10 ∷ [])
      → Logged json host
          (suc n)
          (started ++ take (host.write_all (line ++ 10 ∷ []) n) line)
          more
          ls
          rest
      → Logged json host n started (entry ∷ more) ls rest
  written :
      {n : ℕ} {started rest : List ℕ} {entry : AuditEntry} {more : List AuditEntry}
      {ls : List (List ℕ)} (line : List ℕ)
      → host.to_vec (audit_value json host entry) ≡ some line
      → length (line ++ 10 ∷ []) ≤ host.write_all (line ++ 10 ∷ []) n
      → Logged json host (suc n) [] more ls rest
      → Logged json host n started (entry ∷ more) ((started ++ line) ∷ ls) rest

-- What a reader of some old bytes and then of the line under way finds, with more behind.
abbrev on_from : List (List ℕ) → Split → Split
on_from old s = record { ended = old ++ s.ended; rest = s.rest }

module _ (json : Json) (host : LogHost) where
  -- The encoder's texts have no line feed.
  unfoldable pub Compact : Type 0
  Compact = (v : Value) (line : List ℕ) → host.to_vec v ≡ some line → Unbroken line

put_on :
    (b : ℕ) (old : List (List ℕ)) (r : List ℕ) (t : Split)
    → put b (on_from old (begun r t))
      ≡ (let p = put b (record { ended = old; rest = r }) in on_from p.ended (begun p.rest t))
put_on b [] r t = put-begun b r t
put_on b (l ∷ ls) r t = refl

-- Any bytes behind any others: they go on with the line that is under way.
split_append :
    (bs cs : List ℕ)
    → split_lines (bs ++ cs)
      ≡ on_from (split_lines bs).ended (begun (split_lines bs).rest (split_lines cs))
unfolding split_lines
split_append [] cs = sym (begun_nil (split_lines cs))
split_append (b ∷ bs) cs = elim (Bool-cases (nat_beq b 10)) [
  | inl t ↦ rw (t, split_append bs cs) refl
  | inr f ↦
      rw (f, split_append bs cs)
        (put_on b (split_lines bs).ended (split_lines bs).rest (split_lines cs))
]

split_torn :
    (bs xs : List ℕ)
    → Unbroken xs
    → split_lines (bs ++ xs)
      ≡ record { ended = (split_lines bs).ended; rest = (split_lines bs).rest ++ xs }
unfolding split_lines
split_torn bs xs u =
    let alone : split_lines xs ≡ record { ended = []; rest = xs } =
      ap split_lines (sym (append-nil xs)) ∙ (split_begun xs [] u ∙ rw (append-nil xs) refl) in
    split_append bs xs ∙ rw (alone, append-nil (split_lines bs).ended) refl

split_whole :
    (bs line : List ℕ)
    → Unbroken line
    → split_lines (bs ++ (line ++ 10 ∷ []))
      ≡ record { ended = (split_lines bs).ended ++ ((split_lines bs).rest ++ line) ∷ []; rest = [] }
unfolding split_lines
split_whole bs line u = split_append bs (line ++ 10 ∷ []) ∙ rw (split_line line [] u) refl

module _ (json : Json) (host : LogHost) where
  -- The file behind some writes, as its reader finds it.
  pub record Extended (file : LogFile) (entries : List AuditEntry) (after : LogFile) : Type 0 where
    pub new : List (List ℕ)
    pub rest : List ℕ
    pub split :
        split_lines after.bytes
        ≡ record { ended = (split_lines file.bytes).ended ++ new; rest = rest }
    pub logged : Logged json host file.writes (split_lines file.bytes).rest entries new rest

  abbrev grown : LogFile → List ℕ → LogFile
  grown file piece = record { bytes = file.bytes ++ piece; writes = suc file.writes }

  write_torn :
      (file : LogFile) (line : List ℕ)
      → host.write_all (line ++ 10 ∷ []) file.writes < length (line ++ 10 ∷ [])
      → write_line json host (line ++ 10 ∷ []) file
        ≡ grown file (take (host.write_all (line ++ 10 ∷ []) file.writes) line)
  write_torn file line h = rw (take_front _ line 10 h) refl

  write_whole :
      (file : LogFile) (line : List ℕ)
      → length (line ++ 10 ∷ []) ≤ host.write_all (line ++ 10 ∷ []) file.writes
      → write_line json host (line ++ 10 ∷ []) file ≡ grown file (line ++ 10 ∷ [])
  write_whole file line h = rw (take_all _ (line ++ 10 ∷ []) h) refl

  -- Whatever the log file has and however the writes fail, each after any part of its line, a reader
  -- who cuts the file at its line feeds finds the lines from before, and then a line for each entry
  -- that was written in full, in their order: its encoding, behind what is left of the entries that
  -- were torn since the line before. So the lines are exactly the encodings where no write is torn,
  -- and a torn write spoils one line more than its own. The encoder's texts have no line feed.
  pub write_entries-Extended :
      Compact json host
      → (entries : List AuditEntry) (file : LogFile)
      → Extended file entries (write_entries json host entries file)
  unfolding write_entries write_entry Compact
  write_entries-Extended compact [] file = record {
    new = [];
    rest = (split_lines file.bytes).rest;
    split = rw (append-nil (split_lines file.bytes).ended) refl;
    logged = nothing;
  }
  write_entries-Extended compact (entry ∷ more) file =
      elim (Option-cases (host.to_vec (audit_value json host entry))) [
        | inl t ↦
            let r = write_entries-Extended compact more file in
            rw (write_entries, write_entry, t)
              (record { new = r.new; rest = r.rest; split = r.split; logged = skipped t r.logged })
        | inr (line, t) ↦
            elim (by_size (length (line ++ 10 ∷ []))
              (host.write_all (line ++ 10 ∷ []) file.writes)) [
                | inl z ↦
                    let whole = line ++ 10 ∷ [] in
                    let r = write_entries-Extended compact more (grown file whole) in
                    let cut = split_whole file.bytes line (compact _ line t) in
                    rw (write_entries, write_entry, t, write_whole file line z)
                      (record {
                        new = ((split_lines file.bytes).rest ++ line) ∷ r.new;
                        rest = r.rest;
                        split =
                            (rw cut at r.split)
                            ∙ ap (λ ls. record { ended = ls; rest = r.rest })
                                (append_assoc (split_lines file.bytes).ended
                                  (((split_lines file.bytes).rest ++ line) ∷ []) r.new);
                        logged = written line t z (rw cut at r.logged);
                      })
                | inr z ↦
                    let part = take (host.write_all (line ++ 10 ∷ []) file.writes) line in
                    let r = write_entries-Extended compact more (grown file part) in
                    let cut =
                      split_torn file.bytes part (Unbroken-take _ line (compact _ line t)) in
                    rw (write_entries, write_entry, t, write_torn file line z)
                      (record {
                        new = r.new;
                        rest = r.rest;
                        split = rw cut at r.split;
                        logged = torn line t z (rw cut at r.logged);
                      })
              ]
      ]
