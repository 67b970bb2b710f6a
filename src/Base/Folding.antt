-- ===== src/Base/Folding.antt =====
-- Simple case folding beyond ASCII, as unicode.SimpleFold has it: the code points that fold to another
-- one, in runs, by the tables of Unicode 15.
mod Late
use Prim.Native.Nat.{ℕ, ◌+◌, ◌-◌, ◌%◌}
use mathlib.Core.Bool.{◌&&◌}
use mathlib.Core.List.{List, [], ◌∷◌, ◌++◌}
use lumen_mcp_server.Base.Folding.Late.{runs_3, runs_4}
use lumen_mcp_server.Base.Tests.{leb, eqb, if◌then◌else◌}

-- The first and the last code point of a run, the step from one to the next, and what the first one
-- folds to; the others fold to the code points at the same distances from that.
abbrev Run : Type 0
Run = ℕ × ℕ × ℕ × ℕ

abbrev runs_1 : List Run
runs_1 =
    (0xb5, 0xb5, 1, 0x3bc)
    ∷ (0xc0, 0xd6, 1, 0xe0)
    ∷ (0xd8, 0xde, 1, 0xf8)
    ∷ (0x100, 0x12e, 2, 0x101)
    ∷ (0x132, 0x136, 2, 0x133)
    ∷ (0x139, 0x147, 2, 0x13a)
    ∷ (0x14a, 0x176, 2, 0x14b)
    ∷ (0x178, 0x178, 1, 0xff)
    ∷ (0x179, 0x17d, 2, 0x17a)
    ∷ (0x17f, 0x17f, 1, 0x73)
    ∷ (0x181, 0x181, 1, 0x253)
    ∷ (0x182, 0x184, 2, 0x183)
    ∷ (0x186, 0x186, 1, 0x254)
    ∷ (0x187, 0x187, 1, 0x188)
    ∷ (0x189, 0x18a, 1, 0x256)
    ∷ (0x18b, 0x18b, 1, 0x18c)
    ∷ (0x18e, 0x18e, 1, 0x1dd)
    ∷ (0x18f, 0x18f, 1, 0x259)
    ∷ (0x190, 0x190, 1, 0x25b)
    ∷ (0x191, 0x191, 1, 0x192)
    ∷ (0x193, 0x193, 1, 0x260)
    ∷ (0x194, 0x194, 1, 0x263)
    ∷ (0x196, 0x196, 1, 0x269)
    ∷ (0x197, 0x197, 1, 0x268)
    ∷ (0x198, 0x198, 1, 0x199)
    ∷ (0x19c, 0x19c, 1, 0x26f)
    ∷ (0x19d, 0x19d, 1, 0x272)
    ∷ (0x19f, 0x19f, 1, 0x275)
    ∷ (0x1a0, 0x1a4, 2, 0x1a1)
    ∷ (0x1a6, 0x1a6, 1, 0x280)
    ∷ (0x1a7, 0x1a7, 1, 0x1a8)
    ∷ (0x1a9, 0x1a9, 1, 0x283)
    ∷ (0x1ac, 0x1ac, 1, 0x1ad)
    ∷ (0x1ae, 0x1ae, 1, 0x288)
    ∷ (0x1af, 0x1af, 1, 0x1b0)
    ∷ (0x1b1, 0x1b2, 1, 0x28a)
    ∷ (0x1b3, 0x1b5, 2, 0x1b4)
    ∷ (0x1b7, 0x1b7, 1, 0x292)
    ∷ (0x1b8, 0x1b8, 1, 0x1b9)
    ∷ (0x1bc, 0x1bc, 1, 0x1bd)
    ∷ (0x1c4, 0x1c4, 1, 0x1c6)
    ∷ (0x1c5, 0x1c5, 1, 0x1c6)
    ∷ (0x1c7, 0x1c7, 1, 0x1c9)
    ∷ (0x1c8, 0x1c8, 1, 0x1c9)
    ∷ (0x1ca, 0x1ca, 1, 0x1cc)
    ∷ (0x1cb, 0x1db, 2, 0x1cc)
    ∷ (0x1de, 0x1ee, 2, 0x1df)
    ∷ (0x1f1, 0x1f1, 1, 0x1f3)
    ∷ (0x1f2, 0x1f4, 2, 0x1f3)
    ∷ (0x1f6, 0x1f6, 1, 0x195)
    ∷ (0x1f7, 0x1f7, 1, 0x1bf)
    ∷ []

abbrev runs_2 : List Run
runs_2 =
    (0x1f8, 0x21e, 2, 0x1f9)
    ∷ (0x220, 0x220, 1, 0x19e)
    ∷ (0x222, 0x232, 2, 0x223)
    ∷ (0x23a, 0x23a, 1, 0x2c65)
    ∷ (0x23b, 0x23b, 1, 0x23c)
    ∷ (0x23d, 0x23d, 1, 0x19a)
    ∷ (0x23e, 0x23e, 1, 0x2c66)
    ∷ (0x241, 0x241, 1, 0x242)
    ∷ (0x243, 0x243, 1, 0x180)
    ∷ (0x244, 0x244, 1, 0x289)
    ∷ (0x245, 0x245, 1, 0x28c)
    ∷ (0x246, 0x24e, 2, 0x247)
    ∷ (0x345, 0x345, 1, 0x3b9)
    ∷ (0x370, 0x372, 2, 0x371)
    ∷ (0x376, 0x376, 1, 0x377)
    ∷ (0x37f, 0x37f, 1, 0x3f3)
    ∷ (0x386, 0x386, 1, 0x3ac)
    ∷ (0x388, 0x38a, 1, 0x3ad)
    ∷ (0x38c, 0x38c, 1, 0x3cc)
    ∷ (0x38e, 0x38f, 1, 0x3cd)
    ∷ (0x391, 0x3a1, 1, 0x3b1)
    ∷ (0x3a3, 0x3ab, 1, 0x3c3)
    ∷ (0x3c2, 0x3c2, 1, 0x3c3)
    ∷ (0x3cf, 0x3cf, 1, 0x3d7)
    ∷ (0x3d0, 0x3d0, 1, 0x3b2)
    ∷ (0x3d1, 0x3d1, 1, 0x3b8)
    ∷ (0x3d5, 0x3d5, 1, 0x3c6)
    ∷ (0x3d6, 0x3d6, 1, 0x3c0)
    ∷ (0x3d8, 0x3ee, 2, 0x3d9)
    ∷ (0x3f0, 0x3f0, 1, 0x3ba)
    ∷ (0x3f1, 0x3f1, 1, 0x3c1)
    ∷ (0x3f4, 0x3f4, 1, 0x3b8)
    ∷ (0x3f5, 0x3f5, 1, 0x3b5)
    ∷ (0x3f7, 0x3f7, 1, 0x3f8)
    ∷ (0x3f9, 0x3f9, 1, 0x3f2)
    ∷ (0x3fa, 0x3fa, 1, 0x3fb)
    ∷ (0x3fd, 0x3ff, 1, 0x37b)
    ∷ (0x400, 0x40f, 1, 0x450)
    ∷ (0x410, 0x42f, 1, 0x430)
    ∷ (0x460, 0x480, 2, 0x461)
    ∷ (0x48a, 0x4be, 2, 0x48b)
    ∷ (0x4c0, 0x4c0, 1, 0x4cf)
    ∷ (0x4c1, 0x4cd, 2, 0x4c2)
    ∷ (0x4d0, 0x52e, 2, 0x4d1)
    ∷ (0x531, 0x556, 1, 0x561)
    ∷ (0x10a0, 0x10c5, 1, 0x2d00)
    ∷ (0x10c7, 0x10c7, 1, 0x2d27)
    ∷ (0x10cd, 0x10cd, 1, 0x2d2d)
    ∷ (0x13f8, 0x13fd, 1, 0x13f0)
    ∷ (0x1c80, 0x1c80, 1, 0x432)
    ∷ (0x1c81, 0x1c81, 1, 0x434)
    ∷ []

fold_by : List Run → ℕ → ℕ
fold_by [] c = c
fold_by ((first, last, step, target) ∷ runs) c =
    let rest = fold_by runs c in
    if leb first c && leb c last && eqb ((c - first) % step) 0 then target + (c - first) else rest

unfoldable pub fold_beyond : ℕ → ℕ
unfolding fold_by
fold_beyond c = fold_by (runs_1 ++ (runs_2 ++ (runs_3 ++ runs_4))) c
