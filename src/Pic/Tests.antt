-- ===== src/Pic/Tests.antt =====
-- Runs of the masks, and their theorem at the masks that the timer leaves.
use strixos.Prelude.{◌≡◌, refl, set_bit, clear_bit}
use strixos.Pic.{Pic, set_mask, clear_mask}

abbrev timer_and_keyboard : Pic
timer_and_keyboard = record { data1 = 0xFC; data2 = 0xFF }

runs :
    ((clear_mask timer_and_keyboard 12).data2 ≡ 0xEF)
    × ((set_mask timer_and_keyboard 1).data1 ≡ 0xFE)
unfolding clear_mask set_mask set_bit clear_bit
runs = (refl, refl)
