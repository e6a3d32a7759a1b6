-- ===== src/Log/AppendFile.antt =====
-- AppendFile::append (base/FileUtil.cpp): writing a whole log line through fwrite, which may take
-- only a part. Its answers are a list: with `k` in front it takes `min k remain` bytes; where the
-- list has ended it takes all.
use Prim.Native.Nat.{min}
use jinyi.Prelude.{
  ℕ, ◌+◌, ◌≡◌, refl, sym, ap, ◌∙◌, Bool, true, false, List, [], ◌∷◌, ◌++◌, Bytes, length, take,
  drop, take-add, append_assoc, append-nil, ◌==◌, if◌then◌else◌, take-all, take-append-drop,
  Bool-cases, inl, inr,
}

pub record Appended : Type 0 where
  pub file : Bytes
  pub answers : List ℕ
  -- fwrite took nothing, and the loop was left by `break`
  pub broken : Bool

-- The loop, with the line from `logline + n` on.
unfoldable pub append_loop : List ℕ → Bytes → Bytes → Appended
append_loop ans [] file = record { file = file; answers = ans; broken = false }
append_loop [] (b ∷ bs) file = record { file = file ++ (b ∷ bs); answers = []; broken = false }
append_loop (k ∷ ans) (b ∷ bs) file =
    let x = min k (length (b ∷ bs)) in
    let rest = append_loop ans (drop x (b ∷ bs)) (file ++ take x (b ∷ bs)) in
    if x == 0 then record { file = file; answers = ans; broken = true } else rest

-- The first call of `write` is not tested for 0.
unfoldable pub append : List ℕ → Bytes → Bytes → Appended
unfolding append_loop
append [] line file = append_loop [] line file
append (k ∷ ans) line file =
    let n = min k (length line) in append_loop ans (drop n line) (file ++ take n line)

-- The file has grown by the first `n` bytes of the line, and by all of it unless fwrite took nothing.
pub record Grown (line file : Bytes) (r : Appended) : Type 0 where
  pub n : ℕ
  pub grows : r.file ≡ file ++ take n line
  pub complete : r.broken ≡ false → r.file ≡ file ++ line

Grown-step :
    (x : ℕ) (line file : Bytes) (r : Appended)
    → Grown (drop x line) (file ++ take x line) r
    → Grown line file r
Grown-step x line file r g = record {
  n = x + g.n;
  grows = g.grows ∙ append_assoc file _ _ ∙ ap (◌++◌ file) (sym (take-add x g.n line));
  complete = λ e. g.complete e ∙ append_assoc file _ _ ∙ ap (◌++◌ file) (take-append-drop x line);
}

append_loop-Grown : (ans : List ℕ) (line file : Bytes) → Grown line file (append_loop ans line file)
unfolding append_loop
append_loop-Grown ans [] file = record {
  n = 0;
  grows = sym (append-nil file);
  complete = λ e. sym (append-nil file);
}
append_loop-Grown [] (b ∷ bs) file = record {
  n = length (b ∷ bs);
  grows = ap (◌++◌ file) (sym (take-all (b ∷ bs)));
  complete = λ e. refl;
}
append_loop-Grown (k ∷ ans) (b ∷ bs) file =
    let x = min k (length (b ∷ bs)) in
    elim (Bool-cases (x == 0)) [
      | inl nothing ↦
          rw nothing (record { n = 0; grows = sym (append-nil file); complete = λ e. cc })
      | inr some_bytes ↦ rw some_bytes (
          Grown-step x (b ∷ bs) file _
            (append_loop-Grown ans (drop x (b ∷ bs)) (file ++ take x (b ∷ bs))))
    ]

-- However fwrite splits the line, the file grows by a prefix of it, in order and without
-- repetition, and by the whole line unless some call of fwrite in the loop takes nothing.
pub append-Grown : (ans : List ℕ) (line file : Bytes) → Grown line file (append ans line file)
unfolding append
append-Grown [] line file = append_loop-Grown [] line file
append-Grown (k ∷ ans) line file =
    let n = min k (length line) in
    Grown-step n line file _ (append_loop-Grown ans (drop n line) (file ++ take n line))
