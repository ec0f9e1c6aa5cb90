-- ===== src/Examples/Queue.antt =====
-- The queue of results.
use Prim.Native.Nat.{min}
use anytime_daat.Prelude.{◌≡◌, arith}
use anytime_daat.Topk.{topk_queue, insert}
use anytime_daat.Topk.Insert.{Entered, insert-Entered}
use anytime_daat.Topk.Best.{offer, IsBest, offer-IsBest}
use anytime_daat.Topk.Counts.{count_above, count_above-offer}
use anytime_daat.Examples.{fresh-IsSound, offers}

insert-Entered_example : Entered (topk_queue 2) (insert (topk_queue 2) 4 5)
insert-Entered_example = insert-Entered (topk_queue 2) 4 5 fresh-IsSound

offer-IsBest_example : IsBest offers (offer offers (topk_queue 2))
offer-IsBest_example = offer-IsBest 2 offers (omega arith)

count_above-offer_example :
    count_above 3 (offer offers (topk_queue 2)).entries ≡ min 2 (count_above 3 offers)
count_above-offer_example = count_above-offer 2 offers 3 (omega arith)
