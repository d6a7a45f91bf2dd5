-- ===== src/HttpParser/Append/Room.antt =====
-- The size of the message buffer of http_parser_append_message.
use Prim.Native.Nat.{max}
use demo_submodule.Prelude.{ℕ, zero, suc, ◌+◌, ◌*◌, ◌≤◌, ◌<◌, ◌≡◌, true, false, arith}
use demo_submodule.HttpParser.{HttpParser}
use demo_submodule.HttpParser.Append.{double_until, new_size, reserve}

double_until_lem :
    (fuel needed size : ℕ)
    → 0 < size
    → needed ≤ size + fuel
    → needed ≤ double_until fuel needed size
unfolding double_until
double_until_lem zero needed size h k = omega arith
double_until_lem (suc fuel) needed size h k =
    ground (arith, double_until_lem fuel needed (size * 2))

new_size_lem : (p : HttpParser) (needed : ℕ) → needed ≤ new_size p needed
unfolding new_size
new_size_lem p needed =
    double_until_lem needed needed (max 2048 (2 * p.bufsize)) (omega arith) (omega arith)

-- Either the allocation fails and nothing changes, or there is room for the message, the new
-- bytes and a NUL.
pub reserve_lem :
    (n : ℕ) (p : HttpParser)
    → ((reserve n p).1
        ≡ record p { bufsize = (reserve n p).1.bufsize; memory = (reserve n p).1.memory })
      × ((reserve n p).0 ≡ true → p.msgsize + n < (reserve n p).1.bufsize)
      × ((reserve n p).0 ≡ false → (reserve n p).1.bufsize ≡ p.bufsize)
unfolding reserve
reserve_lem n p = ground (arith, new_size_lem p (p.msgsize + n + 1))
