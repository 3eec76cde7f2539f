-- ===== src/Server/Send/Progress.antt =====
-- One writer: what it has sent and what it has left make up the response.
use librestserver.Libc.{Block, read_bytes}
use librestserver.Libc.Bytes.{read_bytes-append}
use librestserver.Server.State.{WriterData}
use librestserver.Server.Send.{kernel_send, advance, whole}
use librestserver.Prelude.{
  ℕ, ◌-◌, ◌≤◌, ◌≡◌, refl, sym, ap, ◌∙◌, some, [], ◌++◌, append_assoc, arith, length, take, drop,
  length-append, length-drop, length-take_le, ok, pos, sub_ℕ, add_ℕ, take_ℕ, take-append-drop,
}

-- The writer stands between the bytes `sent` and the bytes `left` of its response; `post` is what
-- the block holds behind the response.
pub record Sending (w : WriterData) (sent left post : Block) : Type 0 where
  pub contents : w.block ≡ sent ++ (left ++ post)
  pub place : w.off ≡ pos (length sent)
  pub remaining : w.len ≡ pos (length left)

pub whole-Sending :
    (response post : Block) → Sending (whole (response ++ post) (length response)) [] response post
whole-Sending response post = record { contents = refl; place = refl; remaining = refl }

pub kernel_send-at :
    (w : WriterData) (i n : ℕ) (bytes : Block) (t : ℕ)
    → w.off ≡ pos i
    → w.len ≡ pos n
    → read_bytes w.block i n ≡ ok bytes
    → kernel_send w (some t) ≡ ok (take t bytes)
unfolding kernel_send
kernel_send-at w i n bytes t e k h = rw e (rw k (rw h refl))

-- The kernel takes the next `t` of the bytes that are left.
pub kernel_send-Sending :
    {w : WriterData} {sent left post : Block} (t : ℕ)
    → Sending w sent left post
    → kernel_send w (some t) ≡ ok (take t left)
kernel_send-Sending {w} {sent} {left} {post} t h =
    kernel_send-at w (length sent) (length left) left t h.place h.remaining (
      ap (λ b. read_bytes b (length sent) (length left)) h.contents
      ∙ read_bytes-append sent left post)

-- The writer moves over them.
pub advance-Sending :
    {w : WriterData} {sent left post : Block} (t : ℕ)
    → Sending w sent left post
    → t ≤ length left
    → Sending (advance w (some t)) (sent ++ take t left) (drop t left) post
unfolding advance
advance-Sending {w} {sent} {left} {post} t h le = record {
  contents =
      h.contents
      ∙ ap (λ l. sent ++ (l ++ post)) (sym (take-append-drop t left))
      ∙ ap (λ r. sent ++ r) (append_assoc (take t left) (drop t left) post)
      ∙ sym (append_assoc sent (take t left) (drop t left ++ post));
  place =
      ap (λ z. add_ℕ z t) h.place
      ∙ ap pos (omega (arith, length-append sent (take t left), length-take_le t left le));
  remaining =
      ap (λ z. take_ℕ z t) h.remaining
      ∙ sub_ℕ-le (length left) t le
      ∙ ap pos (sym (length-drop t left));
}
  where
    sub_ℕ-le : (a b : ℕ) → b ≤ a → sub_ℕ a b ≡ pos (a - b)
    sub_ℕ-le a b le = ground arith
