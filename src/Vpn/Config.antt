-- ===== src/Vpn/Config.antt =====
-- The text of an address reply, as READ_IP of jni/proto.cpp takes it apart.
use over.Base.{ℕ, zero, suc, Option, none, some, List, [], ◌∷◌, ◌==◌, if◌then◌else◌, match_option}
use over.Kernel.{Bytes}
use over.Text.{scan_quad}

-- The string that starts here, without its terminator.
unfoldable pub c_string : Bytes → Bytes
c_string [] = []
c_string (c ∷ cs) = let rest = c_string cs in if c == 0 then [] else c ∷ rest

-- `while (*ptr && *ptr != ' ') ptr++`
unfoldable pub skip_field : Bytes → Bytes
skip_field [] = []
skip_field (c ∷ cs) = let rest = skip_field cs in if c == 32 then c ∷ cs else rest

-- `ptr++`, and then on to the next space
unfoldable pub next_field : Bytes → Bytes
unfolding skip_field
next_field [] = []
next_field (c ∷ cs) = skip_field cs

-- That many calls of READ_IP, each from where the last one stopped; `none` where sscanf leaves one
-- of its four integers without a value.
unfoldable pub read_ips : ℕ → Bytes → Option (List Bytes)
unfolding scan_quad next_field
read_ips zero text = some []
read_ips (suc n) text =
    match_option (scan_quad text) none
      λ ip. match_option (read_ips n (next_field text)) none λ ips. some (ip ∷ ips)
