-- ===== src/Hits/Samples.antt =====
-- Numbers in place of f64 and numbered ids, for the tests of the retrieval modules.
use Prim.Native.Nat.{compare}
use Prim.Native.String.{String}
use cognis.Base.{ℕ, ◌+◌, ◌*◌, ◌/◌, List, [], ◌∷◌, some}
use cognis.Hits.{Hit, Floats, Rendering}

-- A quotient is rounded down to a millionth.
abbrev pub millionths : Floats ℕ
millionths = record {
  zero = 0;
  one = 1;
  from_u32 = λ n. n;
  add = ◌+◌;
  div = λ a b. a * 1000000 / b;
  partial_cmp = λ a b. some (compare a b);
}

abbrev pub plain : Rendering ℕ ℕ
plain = record { fused_reason = λ rank score. "fused"; fused_evidence = λ rank score. rank }

abbrev pub hit : String → ℕ → ℕ → Hit ℕ ℕ ℕ
hit layer id score = record {
  symbol_id = id;
  score = score;
  layer = layer;
  reason = "match";
  evidence = 0;
}

abbrev pub lexical : List (Hit ℕ ℕ ℕ)
lexical = hit "lexical" 4 90 ∷ hit "lexical" 7 80 ∷ hit "lexical" 4 70 ∷ []

abbrev pub semantic : List (Hit ℕ ℕ ℕ)
semantic = hit "semantic" 9 20 ∷ hit "semantic" 7 20 ∷ []

abbrev pub csar : List (Hit ℕ ℕ ℕ)
csar = hit "csar" 7 5 ∷ hit "csar" 1 4 ∷ hit "csar" 2 3 ∷ []
