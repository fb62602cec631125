-- ===== src/Daemon/EndMark.antt =====
-- What the end of a handler leaves in a buffer.
use lepd.Base.{
  ℕ, ◌+◌, ◌-◌, ◌≤◌, ◌<◌, ◌≡◌, refl, ◌∙◌, ap, none, some, List, ◌++◌, length, replicate, arith,
  length-append, length-replicate, drop-replicate,
}
use lepd.Base.CString.{c_string, strlen, splice, NonZero, c_string_zeros}
use lepd.Base.Strcat.{strcat_lem, strcat_past}
use lepd.Daemon.{endstring, answer}

-- Bytes read into a zeroed buffer.
filled_buffer :
    (size : ℕ) (got : List ℕ)
    → length got ≤ size
    → splice 0 got (replicate size 0) ≡ some (got ++ replicate (size - length got) 0)
unfolding splice
filled_buffer size got h =
    ground (arith, length-replicate {A = ℕ} size 0, drop-replicate {A = ℕ} size (length got) 0)

pub endstring-NonZero : NonZero endstring
endstring-NonZero = omega arith

module _ (size : ℕ) (got : List ℕ) (inside : length got ≤ size) where
  buffer : List ℕ
  buffer = got ++ replicate (size - length got) 0

  length-buffer : length buffer ≡ size
  unfolding buffer
  length-buffer = omega (
    arith,
    length-append got (replicate (size - length got) 0),
    length-replicate {A = ℕ} (size - length got) 0,
  )

  strlen-buffer : strlen buffer ≡ strlen got
  unfolding buffer
  strlen-buffer = ap length (c_string_zeros got (size - length got))

  -- The reply is the text that was read, with the end mark.
  pub answer-eq :
      strlen got + length endstring < size → answer size got ≡ some (c_string got ++ endstring)
  unfolding answer buffer
  answer-eq room =
      let (b, e, text, _) =
        strcat_lem buffer endstring endstring-NonZero
          (omega (arith, strlen-buffer, length-buffer)) in
      rw (filled_buffer size got inside, e)
        (ap some
          (text ∙ ap (λ (t : List ℕ). t ++ endstring) (c_string_zeros got (size - length got))))

  -- Without room for the end mark the handler writes past its buffer.
  pub answer_past : size ≤ strlen got + length endstring → answer size got ≡ none
  unfolding answer buffer
  answer_past full =
      rw
        (
          filled_buffer size got inside,
          strcat_past buffer endstring (omega (arith, strlen-buffer, length-buffer)),
        )
        refl
