-- ===== src/Publish/Steps.antt =====
-- The statements of a publication as steps of its connection.
use cognis.Base.{ℕ, Bool, not, List, ◌==◌}
use cognis.BtreeMap.{KeyOrd}
use cognis.Sqlite.{Io, ◌>>◌, for_each, query, execute, prepare}
use cognis.Publish.{Store}
use cognis.Publish.Apply.{Setup}

abbrev pub not_equal : ℕ → ℕ → Bool
not_equal a b = not (a == b)

module _ {K R V F J : Type 0} ⦃o : KeyOrd K⦄ (setup : Setup V J) where
  abbrev pub run : (Store K R V F J → Store K R V F J) → Io (Store K R V F J) (Unit {0})
  run = execute setup.refuses

  abbrev pub ask : {A : Type 0} → (Store K R V F J → A) → Io (Store K R V F J) A
  ask = query setup.refuses

  abbrev pub ready : Io (Store K R V F J) (Unit {0})
  ready = prepare setup.refuses

  -- A statement that is prepared once and run for each row.
  unfoldable pub each :
      {X : Type 0}
      → (X → Store K R V F J → Store K R V F J)
      → List X
      → Io (Store K R V F J) (Unit {0})
  each f xs = do ready; for_each (λ x. run (f x)) xs
