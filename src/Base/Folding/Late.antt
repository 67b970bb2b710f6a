-- ===== src/Base/Folding/Late.antt =====
-- The later runs of the table of simple case folding.
use Prim.Native.Nat.{ℕ}
use mathlib.Core.List.{List, [], ◌∷◌}

abbrev pub runs_3 : List (ℕ × ℕ × ℕ × ℕ)
runs_3 =
    (0x1c82, 0x1c82, 1, 0x43e)
    ∷ (0x1c83, 0x1c84, 1, 0x441)
    ∷ (0x1c85, 0x1c85, 1, 0x442)
    ∷ (0x1c86, 0x1c86, 1, 0x44a)
    ∷ (0x1c87, 0x1c87, 1, 0x463)
    ∷ (0x1c88, 0x1c88, 1, 0xa64b)
    ∷ (0x1c90, 0x1cba, 1, 0x10d0)
    ∷ (0x1cbd, 0x1cbf, 1, 0x10fd)
    ∷ (0x1e00, 0x1e94, 2, 0x1e01)
    ∷ (0x1e9b, 0x1e9b, 1, 0x1e61)
    ∷ (0x1e9e, 0x1e9e, 1, 0xdf)
    ∷ (0x1ea0, 0x1efe, 2, 0x1ea1)
    ∷ (0x1f08, 0x1f0f, 1, 0x1f00)
    ∷ (0x1f18, 0x1f1d, 1, 0x1f10)
    ∷ (0x1f28, 0x1f2f, 1, 0x1f20)
    ∷ (0x1f38, 0x1f3f, 1, 0x1f30)
    ∷ (0x1f48, 0x1f4d, 1, 0x1f40)
    ∷ (0x1f59, 0x1f5f, 2, 0x1f51)
    ∷ (0x1f68, 0x1f6f, 1, 0x1f60)
    ∷ (0x1f88, 0x1f8f, 1, 0x1f80)
    ∷ (0x1f98, 0x1f9f, 1, 0x1f90)
    ∷ (0x1fa8, 0x1faf, 1, 0x1fa0)
    ∷ (0x1fb8, 0x1fb9, 1, 0x1fb0)
    ∷ (0x1fba, 0x1fbb, 1, 0x1f70)
    ∷ (0x1fbc, 0x1fbc, 1, 0x1fb3)
    ∷ (0x1fbe, 0x1fbe, 1, 0x3b9)
    ∷ (0x1fc8, 0x1fcb, 1, 0x1f72)
    ∷ (0x1fcc, 0x1fcc, 1, 0x1fc3)
    ∷ (0x1fd8, 0x1fd9, 1, 0x1fd0)
    ∷ (0x1fda, 0x1fdb, 1, 0x1f76)
    ∷ (0x1fe8, 0x1fe9, 1, 0x1fe0)
    ∷ (0x1fea, 0x1feb, 1, 0x1f7a)
    ∷ (0x1fec, 0x1fec, 1, 0x1fe5)
    ∷ (0x1ff8, 0x1ff9, 1, 0x1f78)
    ∷ (0x1ffa, 0x1ffb, 1, 0x1f7c)
    ∷ (0x1ffc, 0x1ffc, 1, 0x1ff3)
    ∷ (0x2126, 0x2126, 1, 0x3c9)
    ∷ (0x212a, 0x212a, 1, 0x6b)
    ∷ (0x212b, 0x212b, 1, 0xe5)
    ∷ (0x2132, 0x2132, 1, 0x214e)
    ∷ (0x2160, 0x216f, 1, 0x2170)
    ∷ (0x2183, 0x2183, 1, 0x2184)
    ∷ (0x24b6, 0x24cf, 1, 0x24d0)
    ∷ (0x2c00, 0x2c2f, 1, 0x2c30)
    ∷ (0x2c60, 0x2c60, 1, 0x2c61)
    ∷ (0x2c62, 0x2c62, 1, 0x26b)
    ∷ (0x2c63, 0x2c63, 1, 0x1d7d)
    ∷ (0x2c64, 0x2c64, 1, 0x27d)
    ∷ (0x2c67, 0x2c6b, 2, 0x2c68)
    ∷ (0x2c6d, 0x2c6d, 1, 0x251)
    ∷ (0x2c6e, 0x2c6e, 1, 0x271)
    ∷ []

abbrev pub runs_4 : List (ℕ × ℕ × ℕ × ℕ)
runs_4 =
    (0x2c6f, 0x2c6f, 1, 0x250)
    ∷ (0x2c70, 0x2c70, 1, 0x252)
    ∷ (0x2c72, 0x2c72, 1, 0x2c73)
    ∷ (0x2c75, 0x2c75, 1, 0x2c76)
    ∷ (0x2c7e, 0x2c7f, 1, 0x23f)
    ∷ (0x2c80, 0x2ce2, 2, 0x2c81)
    ∷ (0x2ceb, 0x2ced, 2, 0x2cec)
    ∷ (0x2cf2, 0x2cf2, 1, 0x2cf3)
    ∷ (0xa640, 0xa66c, 2, 0xa641)
    ∷ (0xa680, 0xa69a, 2, 0xa681)
    ∷ (0xa722, 0xa72e, 2, 0xa723)
    ∷ (0xa732, 0xa76e, 2, 0xa733)
    ∷ (0xa779, 0xa77b, 2, 0xa77a)
    ∷ (0xa77d, 0xa77d, 1, 0x1d79)
    ∷ (0xa77e, 0xa786, 2, 0xa77f)
    ∷ (0xa78b, 0xa78b, 1, 0xa78c)
    ∷ (0xa78d, 0xa78d, 1, 0x265)
    ∷ (0xa790, 0xa792, 2, 0xa791)
    ∷ (0xa796, 0xa7a8, 2, 0xa797)
    ∷ (0xa7aa, 0xa7aa, 1, 0x266)
    ∷ (0xa7ab, 0xa7ab, 1, 0x25c)
    ∷ (0xa7ac, 0xa7ac, 1, 0x261)
    ∷ (0xa7ad, 0xa7ad, 1, 0x26c)
    ∷ (0xa7ae, 0xa7ae, 1, 0x26a)
    ∷ (0xa7b0, 0xa7b0, 1, 0x29e)
    ∷ (0xa7b1, 0xa7b1, 1, 0x287)
    ∷ (0xa7b2, 0xa7b2, 1, 0x29d)
    ∷ (0xa7b3, 0xa7b3, 1, 0xab53)
    ∷ (0xa7b4, 0xa7c2, 2, 0xa7b5)
    ∷ (0xa7c4, 0xa7c4, 1, 0xa794)
    ∷ (0xa7c5, 0xa7c5, 1, 0x282)
    ∷ (0xa7c6, 0xa7c6, 1, 0x1d8e)
    ∷ (0xa7c7, 0xa7c9, 2, 0xa7c8)
    ∷ (0xa7d0, 0xa7d0, 1, 0xa7d1)
    ∷ (0xa7d6, 0xa7d8, 2, 0xa7d7)
    ∷ (0xa7f5, 0xa7f5, 1, 0xa7f6)
    ∷ (0xab70, 0xabbf, 1, 0x13a0)
    ∷ (0xff21, 0xff3a, 1, 0xff41)
    ∷ (0x10400, 0x10427, 1, 0x10428)
    ∷ (0x104b0, 0x104d3, 1, 0x104d8)
    ∷ (0x10570, 0x1057a, 1, 0x10597)
    ∷ (0x1057c, 0x1058a, 1, 0x105a3)
    ∷ (0x1058c, 0x10592, 1, 0x105b3)
    ∷ (0x10594, 0x10595, 1, 0x105bb)
    ∷ (0x10c80, 0x10cb2, 1, 0x10cc0)
    ∷ (0x118a0, 0x118bf, 1, 0x118c0)
    ∷ (0x16e40, 0x16e5f, 1, 0x16e60)
    ∷ (0x1e900, 0x1e921, 1, 0x1e922)
    ∷ []
