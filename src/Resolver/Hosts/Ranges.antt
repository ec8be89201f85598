-- ===== src/Resolver/Hosts/Ranges.antt =====
-- The addresses of four bytes that the server connects to, as ranges of 32-bit numbers.
use luxury_video_tool.Base.{ℕ, ◌+◌, ◌*◌, ◌<◌, ◌≡◌, Bool, not, ◌&&◌, ◌||◌, leb, ◌==◌, arith}
use luxury_video_tool.Resolver.Hosts.{v4, public_ip}

-- The number that an address is.
abbrev pub number : ℕ → ℕ → ℕ → ℕ → ℕ
number a b c d = a * 16777216 + b * 65536 + c * 256 + d

-- The first and the last address of each block that no connection goes to: 0.0.0.0/8, 10.0.0.0/8,
-- 100.64.0.0/10, 127.0.0.0/8, 169.254.0.0/16, 172.16.0.0/12, 192.168.0.0/16 and 224.0.0.0/3.
abbrev pub is_reserved : ℕ → Bool
is_reserved n =
    leb n 16777215
    || (leb 167772160 n && leb n 184549375)
    || (leb 1681915904 n && leb n 1686110207)
    || (leb 2130706432 n && leb n 2147483647)
    || (leb 2851995648 n && leb n 2852061183)
    || (leb 2886729728 n && leb n 2887778303)
    || (leb 3232235520 n && leb n 3232301055)
    || leb 3758096384 n

module _ (a b c d : ℕ) (hb : b < 256) (hc : c < 256) (hd : d < 256) where
  low_block : (leb (number a b c d) 16777215) ≡ (a == 0)
  low_block = ground arith

  ten_block : (leb 167772160 (number a b c d) && leb (number a b c d) 184549375) ≡ (a == 10)
  ten_block = ground arith

  shared_block :
      (leb 1681915904 (number a b c d) && leb (number a b c d) 1686110207)
      ≡ (a == 100 && (leb 64 b && leb b 127))
  shared_block = ground arith

  loop_block : (leb 2130706432 (number a b c d) && leb (number a b c d) 2147483647) ≡ (a == 127)
  loop_block = ground arith

  link_block :
      (leb 2851995648 (number a b c d) && leb (number a b c d) 2852061183) ≡ (a == 169 && b == 254)
  link_block = ground arith

  private_block :
      (leb 2886729728 (number a b c d) && leb (number a b c d) 2887778303)
      ≡ (a == 172 && (leb 16 b && leb b 31))
  private_block = ground arith

  home_block :
      (leb 3232235520 (number a b c d) && leb (number a b c d) 3232301055) ≡ (a == 192 && b == 168)
  home_block = ground arith

  high_block : (leb 3758096384 (number a b c d)) ≡ (leb 224 a)
  high_block = ground arith

  -- The tests of the code come to the same as the tests on the first two bytes.
  tests-blocks :
      public_ip (v4 a b c d)
      ≡ not (
          a == 0
          || a == 10
          || (a == 100 && (leb 64 b && leb b 127))
          || a == 127
          || (a == 169 && b == 254)
          || (a == 172 && (leb 16 b && leb b 31))
          || (a == 192 && b == 168)
          || leb 224 a)
  unfolding public_ip
  tests-blocks = ground arith

  -- An address of four bytes is accepted exactly when its number is in none of the reserved blocks.
  pub public_ip-ranges : public_ip (v4 a b c d) ≡ not (is_reserved (number a b c d))
  public_ip-ranges =
      rw
        (
          low_block, ten_block, shared_block, loop_block, link_block, private_block, home_block,
          high_block,
        )
        tests-blocks
