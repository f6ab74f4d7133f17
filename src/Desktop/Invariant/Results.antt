-- ===== src/Desktop/Invariant/Results.antt =====
-- processIOResults keeps the invariant and does not fault.
use teleop_led_benchmarks.Common.{ℕ, ◌≡◌, refl, Bool, List, [], ◌∷◌, arith}
use teleop_led_benchmarks.Desktop.State.{
  IoResultType, ws_connected, ws_msg_received, tcp_connected, tcp_message_received, cancelled,
  IoResult, AppState, Returns, Returns->>=, Returns-mono,
}
use teleop_led_benchmarks.Desktop.Frame.{handle_io_result, process_io_list, process_io_results}
use teleop_led_benchmarks.Desktop.Invariant.{Wired, Kept}

module _ (clock : ℕ → ℕ) (button : Bool → Bool → Bool) where
  handle_io_result-Wired :
      (t : IoResultType) (r : IoResult) (rs : List IoResult) (s : AppState)
      → r.type ≡ t
      → Wired (r ∷ rs) s
      → Returns (handle_io_result clock button t r s) (λ s'. Wired rs s' × Kept s s')
  unfolding handle_io_result
  handle_io_result-Wired ws_connected r rs s e w = ground arith
  handle_io_result-Wired ws_msg_received r rs s e w = ground arith
  handle_io_result-Wired tcp_connected r rs s e w = ground arith
  handle_io_result-Wired tcp_message_received r rs s e w = ground arith
  handle_io_result-Wired cancelled r rs s e w = ground arith

  Kept-trans : (s t u : AppState) → Kept s t → Kept t u → Kept s u
  Kept-trans s t u h k = ground arith

  process_io_list-Wired :
      (rs : List IoResult) (s : AppState)
      → Wired rs s
      → Returns (process_io_list clock button rs s) (λ s'. Wired [] s' × Kept s s')
  unfolding process_io_list
  process_io_list-Wired [] s w = (w, ground arith)
  process_io_list-Wired (r ∷ rs) s w =
      Returns->>= (handle_io_result clock button r.type r s) (process_io_list clock button rs) _ _
        (handle_io_result-Wired r.type r rs s refl w)
        (λ t (w', k).
          Returns-mono (process_io_list clock button rs t) _ _ (process_io_list-Wired rs t w')
            (λ u (w'', k'). (w'', Kept-trans s t u k k')))

  -- Processing the results empties their list, keeps the invariant, and does not fault.
  pub process_io_results-Wired :
      (s : AppState)
      → Wired s.io_results s
      → Returns
          (process_io_results clock button s)
          (λ s'. Wired s'.io_results s' × Kept s s' × (s'.io_results ≡ []))
  unfolding process_io_results
  process_io_results-Wired s w =
      Returns->>= (process_io_list clock button s.io_results s) _ _ _
        (process_io_list-Wired s.io_results s w) (λ t (w', k). ground arith)
