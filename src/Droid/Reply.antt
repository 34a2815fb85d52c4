-- ===== src/Droid/Reply.antt =====
-- The C server's reply to an address request, read by the Android client.
use over.Base.{◌≡◌, refl, some, [], ◌∷◌, ◌++◌, List}
use over.Kernel.{cut_short, Bytes, Kernel}
use over.Run.{Machine, Returns}
use over.Text.{codes}
use over.Wire.{u32_bytes}
use over.Droid.State.{reply_bytes}
use over.Vpn.State as Vpn
use over.Vpn.Config.{c_string, read_ips}
use over.Vpn.Socket.{ip_reply}
use over.Io.Delivery.{Sends}
use over.Vpn.Sends.{joined}
use over.Vpn.Reply.{no_zero, same_blocks, c_string-terminated, same_blocks-some, ip_reply-Sends}

-- The address, the mask, and the three name servers.
abbrev pub config : List Bytes
config =
    (10 ∷ 10 ∷ 10 ∷ 2 ∷ [])
    ∷ (255 ∷ 255 ∷ 255 ∷ 0 ∷ [])
    ∷ (166 ∷ 111 ∷ 8 ∷ 28 ∷ [])
    ∷ (166 ∷ 111 ∷ 8 ∷ 29 ∷ [])
    ∷ (8 ∷ 8 ∷ 8 ∷ 8 ∷ [])
    ∷ []

abbrev text : Bytes
text = codes "10.10.10.2 255.255.255.0 166.111.8.28 166.111.8.29 8.8.8.8"

text-config : read_ips 5 text ≡ some config
unfolding read_ips same_blocks
text-config = same_blocks-some (read_ips 5 text) config refl

text_ends : (rest : Bytes) → c_string (reply_bytes ++ rest) ≡ text
unfolding reply_bytes no_zero
text_ends rest = c_string-terminated text rest refl

-- Whatever memory stands behind the reply's vector, the Android client takes the reply of the C
-- server apart into the address 10.10.10.2, the mask 255.255.255.0 and the three name servers,
-- and writes these and its socket to the response descriptor and reports success, or a part of
-- them from the front and reports failure, when a write to the descriptor was not taken whole,
-- and changes nothing else.
pub ip_reply-reply_bytes :
    (k : Kernel) (m : Machine Vpn.Vars)
    → Returns
        (Sends cut_short m.vars.response_fd (joined (config ++ u32_bytes m.vars.socket_fd ∷ [])) m)
        (ip_reply k reply_bytes m)
ip_reply-reply_bytes k m =
    ip_reply-Sends k reply_bytes text config m (text_ends (k.heap_tail m.log)) text-config
