-- ===== src/Util.antt =====
-- internal/util/uuid.go. A UUID is the number of its 16 bytes; `uuid.Parse` and `String` are arguments.
pub mod Dashes
use open_friend_mc.Prelude.{
  ℕ, Bool, true, false, not, List, [], ◌∷◌, ◌++◌, Option, none, some, Bytes, length, take, drop,
  ◌==◌, comparable_nat, if◌then◌else◌, codes,
}

unfoldable pub dashed : Bytes → Bytes
dashed s =
    take 8 s
    ++ (codes "-"
        ++ (take 4 (drop 8 s)
            ++ (codes "-"
                ++ (take 4 (drop 12 s)
                    ++ (codes "-" ++ (take 4 (drop 16 s) ++ (codes "-" ++ take 12 (drop 20 s))))))))

unfoldable pub parse_undashed : (Bytes → Option ℕ) → Bytes → Option ℕ
unfolding dashed
parse_undashed parse s = if length s == 32 then parse (dashed s) else parse s

-- The loop of `Undashed`.
unfoldable pub without_dashes : Bytes → Bytes
without_dashes [] = []
without_dashes (c ∷ s) = let rest = without_dashes s in if c == b'-' then rest else c ∷ rest

unfoldable pub undashed : (ℕ → Bytes) → ℕ → Bytes
unfolding without_dashes
undashed print u = without_dashes (print u)
